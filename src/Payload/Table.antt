-- ===== src/Payload/Table.antt =====
-- A table that was written reads back.
use gdut_net.Base.{
  ℕ, ◌+◌, ◌*◌, ◌%◌, ◌^◌, ◌≤◌, ◌<◌, ◌≡◌, refl, String, true, some, List, [], ◌∷◌, ◌++◌, append_assoc,
  length, length-append, All, leb, ltb, arith, le→leb, ◌&&◌,
}
use gdut_net.Ipv4.{codes}
use gdut_net.Payload.{
  PayloadEntry, Coding, to_le_bytes, validate_name, toc_entry, unpack_entry, unpack_entries,
}
use gdut_net.Payload.Bytes.{
  length-to_le_bytes, read_u16, read_u64, bytes_eq_self, take_exact, drop_exact,
}

-- What the source relies on: a text is read back from its bytes, a character has a byte at least, and
-- a digest has 32 bytes.
pub record IsLawful (c : Coding) : Type 0 where
  pub from_utf8-as_bytes : (s : String) → c.from_utf8 (c.as_bytes s) ≡ some s
  pub codes-le : (s : String) → length (codes s) ≤ length (c.as_bytes s)
  pub length-sha256 : (bytes : List ℕ) → length (c.sha256 bytes) ≡ 32

-- An entry that can be packed.
pub record IsPackable (c : Coding) (e : PayloadEntry) : Type 0 where
  pub valid : validate_name e.name ≡ true
  pub short : length (c.as_bytes e.name) < 2 ^ 16

module _ (c : Coding) where
  -- The contents one after the other.
  abbrev pub contents : List PayloadEntry → List ℕ
  contents [] = []
  contents (e ∷ es) = e.content ++ contents es

  -- The table of entries whose contents start at an offset.
  abbrev pub table : ℕ → List PayloadEntry → List ℕ
  table offset [] = []
  table offset (e ∷ es) = toc_entry c offset e ++ table (offset + length e.content) es

  -- The file that holds an entry's content at an offset, and the limit of the contents.
  unpack_entry-toc_entry :
      (e : PayloadEntry) (front back rest : List ℕ) (limit : ℕ)
      → IsLawful c
      → IsPackable c e
      → limit < 2 ^ 64
      → length front + length e.content ≤ limit
      → unpack_entry c (front ++ (e.content ++ back)) limit (toc_entry c (length front) e ++ rest)
        ≡ some (e, rest)
  unfolding unpack_entry toc_entry
  unpack_entry-toc_entry e front back rest limit lawful h small fits =
      let name = c.as_bytes e.name in
      let digest = c.sha256 e.content in
      let n2 = to_le_bytes 2 (length name) in
      let offset = to_le_bytes 8 (length front) in
      let len = to_le_bytes 8 (length e.content) in
      let size : length e.content % 2 ^ 64 ≡ length e.content = omega arith in
      let r4 = digest ++ rest in
      let r3 = len ++ r4 in
      let r2 = offset ++ r3 in
      let r1 = name ++ r2 in
      let whole : toc_entry c (length front) e ++ rest ≡ n2 ++ r1 = simp (append_assoc, size) in
      let has_len : leb 2 (length (n2 ++ r1)) ≡ true =
        le→leb _ _ (omega (arith, length-append n2 r1, length-to_le_bytes 2 (length name))) in
      let has_rest : leb (length name + 48) (length r1) ≡ true = le→leb _ _ (
        omega (
          arith,
          length-append name r2,
          length-append offset r3,
          length-append len r4,
          length-append digest rest,
          length-to_le_bytes 8 (length front),
          length-to_le_bytes 8 (length e.content),
          lawful.length-sha256 e.content,
        )) in
      let inside : (ltb (length front + length e.content) (2 ^ 64)
            && leb (length front + length e.content) limit)
          ≡ true =
        ground arith in
      rw whole (
        simp (
          has_len,
          take_exact 2 n2 r1 (length-to_le_bytes 2 (length name)),
          drop_exact 2 n2 r1 (length-to_le_bytes 2 (length name)),
          read_u16 (length name) h.short,
          has_rest,
          take_exact (length name) name r2 refl,
          drop_exact (length name) name r2 refl,
          lawful.from_utf8-as_bytes e.name,
          h.valid,
          take_exact 8 offset r3 (length-to_le_bytes 8 (length front)),
          drop_exact 8 offset r3 (length-to_le_bytes 8 (length front)),
          read_u64 (length front) (omega arith),
          take_exact 8 len r4 (length-to_le_bytes 8 (length e.content)),
          drop_exact 8 len r4 (length-to_le_bytes 8 (length e.content)),
          read_u64 (length e.content) (omega arith),
          inside,
          drop_exact (length front) front (e.content ++ back) refl,
          take_exact (length e.content) e.content back refl,
          take_exact 32 digest rest (lawful.length-sha256 e.content),
          drop_exact 32 digest rest (lawful.length-sha256 e.content),
          bytes_eq_self digest,
        ))

  -- The entries of a table, in a file that holds their contents from an offset on.
  pub unpack_entries-table :
      (es : List PayloadEntry) (front back : List ℕ) (limit : ℕ)
      → IsLawful c
      → All (IsPackable c) es
      → limit < 2 ^ 64
      → length front + length (contents es) ≤ limit
      → unpack_entries c
          (length es)
          (front ++ (contents es ++ back))
          limit
          (table (length front) es)
        ≡ some es
  unfolding unpack_entries
  unpack_entries-table [] front back limit lawful h small fits = refl
  unpack_entries-table (e ∷ es) front back limit lawful h small fits =
      let later = front ++ e.content in
      let whole : front ++ ((e.content ++ contents es) ++ back)
          ≡ front ++ (e.content ++ (contents es ++ back)) =
        simp append_assoc in
      let shifted : front ++ (e.content ++ (contents es ++ back)) ≡ later ++ (contents es ++ back) =
        simp append_assoc in
      let sizes : length front + length e.content + length (contents es) ≤ limit =
        omega (arith, length-append e.content (contents es)) in
      let first =
        unpack_entry-toc_entry e front (contents es ++ back)
          (table (length front + length e.content) es) limit lawful h.0 small (omega arith) in
      let rest =
        unpack_entries-table es later back limit lawful h.1 small
          (omega (arith, length-append front e.content)) in
      rw (whole, first, shifted, ← length-append front e.content, rest)

  name_pos : (s : String) → validate_name s ≡ true → 1 ≤ length (codes s)
  unfolding validate_name
  name_pos String.[] h = ground arith
  name_pos (String.◌∷◌ x s) h = omega arith

  length-toc_entry :
      (offset : ℕ) (e : PayloadEntry)
      → IsLawful c
      → length (toc_entry c offset e) ≡ length (c.as_bytes e.name) + 50
  unfolding toc_entry
  length-toc_entry offset e lawful =
      simp (length-append, length-to_le_bytes, lawful.length-sha256) (omega arith)

  -- An entry of the table takes 51 bytes at least.
  pub length-table :
      (offset : ℕ) (es : List PayloadEntry)
      → IsLawful c
      → All (IsPackable c) es
      → length es * 51 ≤ length (table offset es)
  length-table offset [] lawful h = omega arith
  length-table offset (e ∷ es) lawful h = omega (
    arith,
    length-append (toc_entry c offset e) (table (offset + length e.content) es),
    length-toc_entry offset e lawful,
    lawful.codes-le e.name,
    name_pos e.name h.0.valid,
    length-table (offset + length e.content) es lawful h.1,
  )
