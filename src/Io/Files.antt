-- ===== src/Io/Files.antt =====
-- The files that src/io reaches through the C library, and src/io/flatfile.c.
use squel.Common.{
  Bool, Bool-cases, Bytes, List, Option, Run, [], append-nil, arith, bytes_eq, bytes_eq_iff, decode,
  decode-encode, defined, drop, drop-length-append, encode, exit, false, if◌then◌else◌,
  indeterminate, inl, inr, leb, length, length-append, length-encode, le→leb, none, ok, refl, some,
  take, take-append, true, ℕ, ◌++◌, ◌<◌, ◌>>=◌, ◌>>◌, ◌^◌, ◌∷◌, ◌≡◌,
}
use squel.Config.{}

-- The files that exist, by path. A `FILE*` that is read is the rest of a content.
abbrev pub Files : Type 0
Files = List (Bytes × Bytes)

unfoldable pub find_file : Files → Bytes → Option Bytes
find_file [] path = none
find_file ((name, content) ∷ files) path =
    if bytes_eq name path then some content else find_file files path

-- What `fopen(path, "w+")`, the writes and `fclose` leave: a file with the new content alone.
unfoldable pub write_file : Files → Bytes → Bytes → Files
write_file [] path content = (path, content) ∷ []
write_file ((name, old) ∷ files) path content =
    if bytes_eq name path
    then (name, content) ∷ files
    else (name, old) ∷ write_file files path content

-- `fileExists`
unfoldable pub file_exists : Files → Bytes → Bool
unfolding find_file
file_exists files path = elim (find_file files path) [ none ↦ false | some content ↦ true ]

-- `fopen(path, "r")`, with the test for NULL that exits.
unfoldable pub open_read : Files → Bytes → Run Bytes
unfolding find_file
open_read files path = elim (find_file files path) [ none ↦ exit | some content ↦ ok content ]

-- `fread` of `n` bytes. The program does not look at its result: where the file ends before, the
-- target keeps what it held, which is nothing that the program has set.
unfoldable pub read_bytes : ℕ → Bytes → Run (Bytes × Bytes)
read_bytes n file = do defined (leb n (length file)) indeterminate; ok (take n file, drop n file)

unfoldable pub read_number : ℕ → Bytes → Run (ℕ × Bytes)
unfolding read_bytes decode
read_number n file = do
  (bytes, file') ← read_bytes n file
  number ← decode n bytes
  ok (number, file')

other_name :
    (name path other old content : Bytes) (found : Option Bytes)
    → bytes_eq name path ≡ false
    → (if bytes_eq name other
        then some old
        else if bytes_eq path other
        then some content
        else found)
      ≡ (if bytes_eq path other
          then some content
          else if bytes_eq name other
          then some old
          else found)
other_name name path other old content found e = elim (Bool-cases (bytes_eq path other)) [
  | inl p ↦ let same : path ≡ other = (bytes_eq_iff path other).0 p in rw (p, ← same, e)
  | inr p ↦ rw p
]

-- The content that was written is the one that is found, and other files stay.
pub find_file-write :
    (files : Files) (path content other : Bytes)
    → find_file (write_file files path content) other
      ≡ (if bytes_eq path other then some content else find_file files other)
unfolding find_file write_file
find_file-write [] path content other = refl
find_file-write ((name, old) ∷ files) path content other = elim (Bool-cases (bytes_eq name path)) [
  | inl e ↦ let same : name ≡ path = (bytes_eq_iff name path).0 e in rw (e, same) (ground arith)
  | inr e ↦ rw (e, find_file-write files path content other) (other_name name path other old _ _ e)
]

pub read_bytes-append :
    (n : ℕ) (bytes rest : Bytes)
    → length bytes ≡ n
    → read_bytes n (bytes ++ rest) ≡ ok (bytes, rest)
unfolding read_bytes
read_bytes-append n bytes rest e = rw (
  ← e,
  le→leb (length bytes) (length (bytes ++ rest)) (omega (arith, length-append bytes rest)),
  take-append bytes rest,
  drop-length-append bytes rest,
)

pub read_number-encode :
    (n w : ℕ) (rest : Bytes) → w < 256 ^ n → read_number n (encode n w ++ rest) ≡ ok (w, rest)
unfolding read_number
read_number-encode n w rest h =
    let decoded : decode n (encode n w) ≡ ok w = rw append-nil at (decode-encode n w [] h) in
    rw (read_bytes-append n (encode n w) rest (length-encode n w), ◌>>=◌, decoded)
