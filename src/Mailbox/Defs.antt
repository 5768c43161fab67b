-- ===== src/Mailbox/Defs.antt =====
-- include/hermit/mailbox.h and include/hermit/mailbox_types.h, for pointers that are not NULL. A
-- semaphore is its value, as Semaphore describes it: a wait takes one if it is positive, a post
-- adds one. `rlock` and `wlock` make the code that they guard one step. `size` is MAILBOX_SIZE.
use libhermit.Base.{ℕ, ◌+◌, ◌-◌, ◌%◌, ◌^◌, ◌<◌, ◌≡◌, List, [], ◌∷◌, ◌++◌, get_or, set, update}
use libhermit.Semaphore.{replicate}

pub record Mailbox : Type 0 where
  pub buffer : List ℕ
  pub wpos : ℕ
  pub rpos : ℕ
  pub mails : ℕ
  pub boxes : ℕ

-- `mailbox_init`
abbrev pub mailbox_init : ℕ → Mailbox
mailbox_init size = record {
  buffer = replicate size 0;
  wpos = 0;
  rpos = 0;
  mails = 0;
  boxes = size;
}

-- Where a task stands.
pub data Pc : Type 0 where
  between : Pc  -- in none of the functions
  posting : ℕ → Pc  -- has taken a box, and will write the mail
  written : Pc  -- before `sem_post(&m->mails)`
  fetching : Pc  -- has taken a mail, and will read it
  received : ℕ → Pc  -- before `sem_post(&m->boxes)`, with what it has read

-- One step of a task in `mailbox_post`, `mailbox_trypost`, `mailbox_fetch` or `mailbox_tryfetch`. A
-- task that waits for a semaphore makes no step.
pub data Move (size : ℕ) (m : Mailbox) : Pc → Mailbox → Pc → Type 0 where
  take_box :
      (mail : ℕ)
      → 0 < m.boxes
      → Move size m between (record m { boxes = m.boxes - 1 }) (posting mail)
  busy : m.boxes ≡ 0 → Move size m between m between
  put :
      {mail : ℕ}
      → Move size m
          (posting mail)
          (record m { buffer = set m.buffer m.wpos mail; wpos = (m.wpos + 1) % size })
          written
  post_mail : Move size m written (record m { mails = (m.mails + 1) % 2 ^ 32 }) between
  take_mail : 0 < m.mails → Move size m between (record m { mails = m.mails - 1 }) fetching
  -- `mailbox_tryfetch` fails, or the wait of `mailbox_fetch` times out.
  no_mail : m.mails ≡ 0 → Move size m between m between
  get :
      Move size m fetching
        (record m { rpos = (m.rpos + 1) % size })
        (received (get_or m.buffer m.rpos 0))
  post_box :
      {mail : ℕ} → Move size m (received mail) (record m { boxes = (m.boxes + 1) % 2 ^ 32 }) between

-- The mails that a step writes, and those that it reads.
abbrev pub sent : {size : ℕ} {m m' : Mailbox} {p p' : Pc} → Move size m p m' p' → List ℕ
sent (put {mail}) = mail ∷ []
sent _ = []

abbrev pub read : {size : ℕ} {m m' : Mailbox} {p p' : Pc} → Move size m p m' p' → List ℕ
read {m} get = get_or m.buffer m.rpos 0 ∷ []
read _ = []

pub record System : Type 0 where
  pub box : Mailbox
  pub pc : ℕ → Pc

abbrev pub init : ℕ → System
init size = record { box = mailbox_init size; pc = λ i. between }

-- What `n` tasks can come to, with the mails that were written and those that were read, in order.
pub data Reach (size n : ℕ) : System → List ℕ → List ℕ → Type 0 where
  start : Reach size n (init size) [] []
  later :
      {s : System} {ins outs : List ℕ}
      → Reach size n s ins outs
      → (i : ℕ) {m : Mailbox} {p : Pc} → i < n
      → (mv : Move size s.box (s.pc i) m p)
      → Reach size n (record { box = m; pc = update s.pc i p }) (ins ++ sent mv) (outs ++ read mv)
