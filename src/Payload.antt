-- ===== src/Payload.antt =====
-- src/payload.rs: the container of the files that the installer carries, behind its own executable:
-- the contents, a table of them, and a footer of 24 bytes. Bytes are numbers, and `none` is an error.
-- UTF-8 and SHA-256 are the parameter `Coding`. A `usize` has 64 bits. Reserving memory succeeds.
pub mod Bytes
pub mod RoundTrip
pub mod Table
use gdut_net.Base.{
  ℕ, zero, suc, ◌+◌, ◌-◌, ◌*◌, ◌/◌, ◌%◌, ◌^◌, String, Bool, true, false, not, ◌&&◌, ◌||◌, Option,
  none, some, List, [], ◌∷◌, ◌++◌, length, take, drop, any, ltb, leb, ◌==◌, str_eq, if◌then◌else◌,
}
use gdut_net.Ipv4.{codes, ◌>>=◌}

pub record PayloadEntry : Type 0 where
  pub name : String
  pub content : List ℕ

-- `str::as_bytes`, `str::from_utf8` and SHA-256.
pub record Coding : Type 0 where
  pub as_bytes : String → List ℕ
  pub from_utf8 : List ℕ → Option String
  pub sha256 : List ℕ → List ℕ

-- MAGIC, `GDUTPAK1`
abbrev pub magic : List ℕ
magic = 71 ∷ 68 ∷ 85 ∷ 84 ∷ 80 ∷ 65 ∷ 75 ∷ 49 ∷ []

-- VERSION
abbrev pub version : ℕ
version = 1

-- FOOTER_LEN
abbrev pub footer_len : ℕ
footer_len = 24

-- `to_le_bytes`, of as many bytes.
unfoldable pub to_le_bytes : ℕ → ℕ → List ℕ
to_le_bytes zero v = []
to_le_bytes (suc n) v = (v % 256) ∷ to_le_bytes n (v / 256)

unfoldable pub from_le_bytes : List ℕ → ℕ
from_le_bytes [] = 0
from_le_bytes (b ∷ bs) = b + 256 * from_le_bytes bs

-- `==` of byte strings
unfoldable pub bytes_eq : List ℕ → List ℕ → Bool
bytes_eq [] [] = true
bytes_eq [] (y ∷ ys) = false
bytes_eq (x ∷ xs) [] = false
bytes_eq (x ∷ xs) (y ∷ ys) = x == y && bytes_eq xs ys

-- `char::is_control`: the category Cc.
abbrev pub is_control : ℕ → Bool
is_control c = ltb c 32 || (leb 127 c && leb c 159)

-- `contains("..")`
unfoldable pub has_dots : List ℕ → Bool
has_dots [] = false
has_dots (c ∷ []) = false
has_dots (c ∷ d ∷ cs) = (c == b'.' && d == b'.') || has_dots (d ∷ cs)

abbrev pub is_separator : ℕ → Bool
is_separator c = c == b'/' || c == b'\\' || c == b':'

unfoldable pub validate_name : String → Bool
unfolding has_dots
validate_name name =
    not (str_eq name "")
    && not (any is_separator (codes name) || has_dots (codes name))
    && not (any is_control (codes name))

-- The first loop of `pack`, over the names that it has seen.
unfoldable pub check_names : List String → List PayloadEntry → Bool
unfolding validate_name
check_names seen [] = true
check_names seen (e ∷ es) =
    validate_name e.name && not (any (λ n. str_eq n e.name) seen) && check_names (e.name ∷ seen) es

unfoldable pub footer : ℕ → ℕ → List ℕ
footer count toc_offset =
    magic ++ (to_le_bytes 4 version ++ (to_le_bytes 4 (count % 2 ^ 32) ++ to_le_bytes 8 toc_offset))

-- A test that must hold.
abbrev pub ensure : Bool → Option (Unit {0})
ensure true = some tt
ensure false = none

-- An error unless the test holds.
infixl 5 ◌>>◌
abbrev pub ◌>>◌ {ℓ} : {A : Type ℓ} → Option (Unit {0}) → Option A → Option A
m >> k = m >>= λ _. k

module _ (c : Coding) where
  -- An entry of the table.
  unfoldable pub toc_entry : ℕ → PayloadEntry → List ℕ
  toc_entry offset e =
      to_le_bytes 2 (length (c.as_bytes e.name))
      ++ (c.as_bytes e.name
          ++ (to_le_bytes 8 offset
              ++ (to_le_bytes 8 (length e.content % 2 ^ 64) ++ c.sha256 e.content)))

  -- The second loop of `pack`, over the output and the table so far.
  unfoldable pub pack_entries : List ℕ → List ℕ → List PayloadEntry → Option (List ℕ × List ℕ)
  pack_entries out toc [] = some (out, toc)
  pack_entries out toc (e ∷ es) = do
    ensure (ltb (length (c.as_bytes e.name)) (2 ^ 16))
    pack_entries (out ++ e.content) (toc ++ toc_entry (length out % 2 ^ 64) e) es

  unfoldable pub pack : List ℕ → List PayloadEntry → Option (List ℕ)
  pack setup entries = do
    ensure (check_names [] entries)
    (out, toc) ← pack_entries setup [] entries
    some (out ++ (toc ++ footer (length entries) (length out % 2 ^ 64)))

  -- A round of the loop of `unpack` at the rest of the table: an entry, and the rest after it.
  unfoldable pub unpack_entry : List ℕ → ℕ → List ℕ → Option (PayloadEntry × List ℕ)
  unpack_entry exe toc_offset rest = do
    ensure (leb 2 (length rest))
    let name_len = from_le_bytes (take 2 rest)
    let r1 = drop 2 rest
    ensure (leb (name_len + 48) (length r1))
    name ← c.from_utf8 (take name_len r1)
    ensure (validate_name name)
    let r2 = drop name_len r1
    let offset = from_le_bytes (take 8 r2)
    let r3 = drop 8 r2
    let len = from_le_bytes (take 8 r3)
    let r4 = drop 8 r3
    ensure (ltb (offset + len) (2 ^ 64) && leb (offset + len) toc_offset)
    let content = take len (drop offset exe)
    ensure (bytes_eq (c.sha256 content) (take 32 r4))
    some (record { name = name; content = content }, drop 32 r4)

  -- The loop of `unpack` and the test after it, over the entries that are left.
  unfoldable pub unpack_entries : ℕ → List ℕ → ℕ → List ℕ → Option (List PayloadEntry)
  unpack_entries zero exe toc_offset rest = do ensure (length rest == 0); some []
  unpack_entries (suc count) exe toc_offset rest = do
    (e, rest') ← unpack_entry exe toc_offset rest
    es ← unpack_entries count exe toc_offset rest'
    some (e ∷ es)

  -- `unpack` of a file that ends in the magic, with the fields of its footer.
  unfoldable pub unpack_table : List ℕ → List ℕ → Option (List PayloadEntry)
  unpack_table exe foot = do
    let toc_offset = from_le_bytes (take 8 (drop 16 foot))
    let count = from_le_bytes (take 4 (drop 12 foot))
    let toc_end = length exe - footer_len
    ensure (from_le_bytes (take 4 (drop 8 foot)) == version)
    ensure (leb toc_offset toc_end)
    let toc = take (toc_end - toc_offset) (drop toc_offset exe)
    ensure (leb count (length toc / 51))
    unpack_entries count exe toc_offset toc

  -- `some none` where the file has no payload.
  unfoldable pub unpack : List ℕ → Option (Option (List PayloadEntry))
  unpack exe =
      let foot = drop (length exe - footer_len) exe in
      let table = unpack_table exe foot >>= λ entries. some (some entries) in
      if ltb (length exe) footer_len
      then some none
      else if not (bytes_eq (take 8 foot) magic)
      then some none
      else table
