-- ===== src/Buffer.antt =====
-- libsponge/util/buffer.hh and buffer.cc: `Buffer`, `BufferList` and `BufferViewList`. The shared
-- storage is never written to, so it is a value; a `string_view` is the bytes that it shows.
pub mod Contents
use cs144_intro2network.Prelude.{
  ℕ, List, [], ◌∷◌, ◌++◌, Option, none, some, drop, add64, if◌then◌else◌, length, get_elem?, ◌==◌,
  ltb, ◌-◌,
}

pub record Buffer : Type 0 where
  pub storage : Option (List ℕ)
  pub starting_offset : ℕ

-- `Buffer()` and `Buffer(std::string &&)`.
abbrev pub empty : Buffer
empty = record { storage = none; starting_offset = 0 }

abbrev pub of_string : List ℕ → Buffer
of_string bytes = record { storage = some bytes; starting_offset = 0 }

-- `str`, and `copy` with it: the storage from the offset on.
abbrev pub shown : Option (List ℕ) → ℕ → List ℕ
shown none offset = []
shown (some bytes) offset = drop offset bytes

abbrev pub str : Buffer → List ℕ
str b = shown b.storage b.starting_offset

abbrev pub size : Buffer → ℕ
size b = length (str b)

-- `none` where `std::string_view::at` throws.
abbrev pub at : Buffer → ℕ → Option ℕ
at b n = get_elem? (str b) n

-- The storage goes when all of it is discarded.
abbrev pub released : Option (List ℕ) → ℕ → Option (List ℕ)
released none offset = none
released (some bytes) offset = if offset == length bytes then none else some bytes

-- `none` where it throws.
unfoldable pub remove_prefix : ℕ → Buffer → Option Buffer
remove_prefix n b =
    if ltb (size b) n
    then none
    else (let offset = add64 b.starting_offset n in
        some (record { storage = released b.storage offset; starting_offset = offset }))

-- `BufferList::append`.
unfoldable pub append : List Buffer → List Buffer → List Buffer
append buffers [] = buffers
append buffers (b ∷ others) = append (buffers ++ b ∷ []) others

-- `operator Buffer`: `none` where it throws.
unfoldable pub to_buffer : List Buffer → Option Buffer
to_buffer [] = some empty
to_buffer (b ∷ []) = some b
to_buffer (b ∷ c ∷ bs) = none

-- The loop of `concatenate`, for what it has appended.
unfoldable pub concatenate_from : List ℕ → List Buffer → List ℕ
concatenate_from ret [] = ret
concatenate_from ret (b ∷ bs) = concatenate_from (ret ++ str b) bs

abbrev pub concatenate : List Buffer → List ℕ
concatenate bs = concatenate_from [] bs

unfoldable pub list_size_from : ℕ → List Buffer → ℕ
list_size_from ret [] = ret
list_size_from ret (b ∷ bs) = list_size_from (add64 ret (size b)) bs

-- `BufferList::size`.
abbrev pub list_size : List Buffer → ℕ
list_size bs = list_size_from 0 bs

abbrev pub put_front : List Buffer → Option Buffer → Option (List Buffer)
put_front bs none = none
put_front bs (some b) = some (b ∷ bs)

-- `BufferList::remove_prefix`: a round of its loop for each buffer. `none` where it throws.
unfoldable pub list_remove_prefix : ℕ → List Buffer → Option (List Buffer)
unfolding remove_prefix
list_remove_prefix n [] = if n == 0 then some [] else none
list_remove_prefix n (b ∷ bs) =
    let rest = list_remove_prefix (n - size b) bs in
    if n == 0
    then some (b ∷ bs)
    else if ltb n (size b)
    then put_front bs (remove_prefix n b)
    else rest

-- `BufferViewList(const BufferList &)`: a view of each buffer.
unfoldable pub views_of : List Buffer → List (List ℕ)
views_of [] = []
views_of (b ∷ bs) = str b ∷ views_of bs

unfoldable pub view_size_from : ℕ → List (List ℕ) → ℕ
view_size_from ret [] = ret
view_size_from ret (v ∷ vs) = view_size_from (add64 ret (length v)) vs

-- `BufferViewList::size`.
abbrev pub view_size : List (List ℕ) → ℕ
view_size vs = view_size_from 0 vs

-- `BufferViewList::remove_prefix`.
unfoldable pub view_remove_prefix : ℕ → List (List ℕ) → Option (List (List ℕ))
view_remove_prefix n [] = if n == 0 then some [] else none
view_remove_prefix n (v ∷ vs) =
    let rest = view_remove_prefix (n - length v) vs in
    if n == 0 then some (v ∷ vs) else if ltb n (length v) then some (drop n v ∷ vs) else rest
