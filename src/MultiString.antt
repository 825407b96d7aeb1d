-- ===== src/MultiString.antt =====
-- km-shared/multistring.c: sequences of strings in one buffer, each with its terminator, and one
-- terminator behind the last.
-- A buffer is the list of its wide characters from Data on, with the spare room behind the
-- strings; pointers into it are offsets. `equal` is RtlEqualUnicodeString without regard to case.
pub mod Names
pub mod Insert
pub mod Remove
mod Tests
use mathlib.Core.Option as Option
use irpmon.Common.{
  ℕ, zero, suc, ◌+◌, ◌-◌, ◌*◌, ◌/◌, List, [], ◌∷◌, Option, none, some, Bool, true, false,
  if◌then◌else◌, ◌==◌, length, get_or, set, take, drop,
}

-- wcslen
unfoldable pub wcslen : List ℕ → ℕ
wcslen [] = 0
wcslen (c ∷ cs) = let rest = wcslen cs in if c == 0 then 0 else suc rest

-- memcpy and memmove of the characters to an offset; nothing is written behind the buffer.
unfoldable pub write : ℕ → List ℕ → List ℕ → List ℕ
write at xs [] = []
write (suc at) xs (b ∷ bs) = b ∷ write at xs bs
write zero [] (b ∷ bs) = b ∷ bs
write zero (x ∷ xs) (b ∷ bs) = x ∷ write zero xs bs

-- The loop of _MultiStringSize, for at most so many strings.
unfoldable pub size_from : ℕ → List ℕ → ℕ → ℕ
size_from zero data_left bytes = bytes
size_from (suc n) data_left bytes =
    let len = wcslen data_left in
    let more = size_from n (drop (suc len) data_left) (bytes + (len + 1) * 2) in
    if get_or data_left 0 0 == 0 then bytes else more

-- _MultiStringSize. No buffer has more strings than characters.
unfoldable pub size : List ℕ → ℕ
size buffer = size_from (length buffer) buffer 2

-- The loop of _MultiStringExists, for at most so many strings: the offset of the one that is found.
unfoldable pub exists_from : (List ℕ → List ℕ → Bool) → List ℕ → ℕ → ℕ → List ℕ → Option ℕ
exists_from equal name zero at data_left = none
exists_from equal name (suc n) at data_left =
    let len = wcslen data_left in
    let more = exists_from equal name n (at + (len + 1)) (drop (suc len) data_left) in
    if get_or data_left 0 0 == 0
    then none
    else if equal (take len data_left) name
    then some at
    else more

-- _MultiStringExists
unfoldable pub exists : (List ℕ → List ℕ → Bool) → List ℕ → List ℕ → Option ℕ
exists equal name buffer = exists_from equal name (length buffer) 0 buffer

-- What _MultiStringInsert makes of the buffer when the string is new.
unfoldable pub put : List ℕ → Bool → List ℕ → List ℕ
put name beginning buffer =
    let count = length name in
    let all = size buffer / 2 in
    if beginning
    then set (write 0 name (write (suc count) (take all buffer) buffer)) count 0
    else write (all - 1) name buffer

-- Only a new string is inserted.
unfoldable pub if_new : Option ℕ → List ℕ × ℕ → Option (List ℕ × ℕ)
if_new (some at) result = none
if_new none result = some result

-- _MultiStringInsert: the buffer and *NewLength, or none for FALSE.
unfoldable pub insert : (List ℕ → List ℕ → Bool) → List ℕ → Bool → List ℕ → Option (List ℕ × ℕ)
insert equal name beginning buffer =
    if_new (exists equal name buffer)
      (put name beginning buffer, size buffer + (length name * 2 + 2))

-- What _MultiStringRemove does about the string at an offset: the buffer and *NewSize.
unfoldable pub cut : List ℕ → List ℕ → ℕ → List ℕ × ℕ
cut name buffer at =
    let bytes = size buffer - (length name * 2 + 2) in
    let left = bytes / 2 in
    let behind = take (left - at) (drop (at + (length name + 1)) buffer) in
    (set (write at behind buffer) (left - 1) 0, bytes)

-- _MultiStringRemove: the buffer and *NewSize, or none for FALSE.
unfoldable pub remove : (List ℕ → List ℕ → Bool) → List ℕ → List ℕ → Option (List ℕ × ℕ)
remove equal name buffer = Option.map (cut name buffer) (exists equal name buffer)

-- _MultiStringFirst: where the first string begins, or none for FALSE.
unfoldable pub first : List ℕ → Option (List ℕ)
first buffer = if get_or buffer 0 0 == 0 then none else some buffer

-- _MultiStringNext: the string behind the one that the pointer is at.
unfoldable pub next : List ℕ → Option (List ℕ)
next item =
    let behind = drop (suc (wcslen item)) item in
    if get_or behind 0 0 == 0 then none else some behind
