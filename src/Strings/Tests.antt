-- ===== src/Strings/Tests.antt =====
-- Runs of the theorems on a memory that holds the string "ab" at the addresses 16 and 32.
use libhermit.Base.{◌≡◌, ◌==◌, if◌then◌else◌}
use libhermit.Strings.Defs.{Bytes, memcmp}
use libhermit.Strings.Results.{memcmp-same, same_bytes}

abbrev bytes : Bytes
bytes a =
    if a == 16
    then 97
    else if a == 17
    then 98
    else if a == 32
    then 97
    else if a == 33
    then 98
    else 0

memcmp-same_example : let (a, b) = memcmp 16 32 3 bytes in (a == b) ≡ same_bytes bytes 16 32 3
memcmp-same_example = memcmp-same 16 32 3 bytes
