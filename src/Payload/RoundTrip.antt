-- ===== src/Payload/RoundTrip.antt =====
-- What is packed is unpacked.
use gdut_net.Base.{
  some_inj, ℕ, ◌+◌, ◌-◌, ◌/◌, ◌%◌, ◌^◌, ◌<◌, ◌≡◌, refl, sym, ◌∙◌, String, true, some, List, [], ◌∷◌,
  ◌++◌, append-nil, append_assoc, length, length-append, take, drop, All, leb, ltb, arith,
  Bool-cases, Option-cases, false, inl, inr, le→leb, ltb→lt,
}
use gdut_net.Payload.{
  PayloadEntry, Coding, magic, version, footer_len, to_le_bytes, from_le_bytes, validate_name,
  check_names, toc_entry, pack_entries, footer, pack, unpack_table, unpack,
}
use gdut_net.Payload.Bytes.{read_u32, read_u64, bytes_eq_self, take_exact, drop_exact}
use gdut_net.Payload.Table.{
  IsLawful, IsPackable, contents, table, unpack_entries-table, length-table,
}

check_names-All :
    (seen : List String) (es : List PayloadEntry)
    → check_names seen es ≡ true
    → All (λ e. validate_name e.name ≡ true) es
unfolding check_names
check_names-All seen [] h = tt
check_names-All seen (e ∷ es) h = ground (arith, check_names-All (e.name ∷ seen) es)

footer_fields :
    (count offset : ℕ)
    → let foot = footer count offset in
      (length foot ≡ 24)
      × (take 8 foot ≡ magic)
      × (take 4 (drop 8 foot) ≡ to_le_bytes 4 version)
      × (take 4 (drop 12 foot) ≡ to_le_bytes 4 (count % 2 ^ 32))
      × (take 8 (drop 16 foot) ≡ to_le_bytes 8 offset)
unfolding footer to_le_bytes
footer_fields count offset = (refl, refl, refl, refl, refl)

module _ (c : Coding) where
  -- What the second loop of `pack` yields where the output fits 64 bits.
  pack_entries-table :
      (es : List PayloadEntry) (out toc : List ℕ) (done : List ℕ × List ℕ)
      → All (λ e. validate_name e.name ≡ true) es
      → pack_entries c out toc es ≡ some done
      → length out + length (contents c es) < 2 ^ 64
      → All (IsPackable c) es × (done ≡ (out ++ contents c es, toc ++ table c (length out) es))
  unfolding pack_entries
  pack_entries-table [] out toc done valid h fits =
      (tt, ground (arith, h, append-nil out, append-nil toc))
  pack_entries-table (e ∷ es) out toc done valid h fits =
      let size : length out % 2 ^ 64 ≡ length out =
        omega (arith, length-append e.content (contents c es)) in
      elim (Bool-cases (ltb (length (c.as_bytes e.name)) (2 ^ 16))) [
        | inr long ↦ ground (arith, h, long)
        | inl short ↦
            let next = rw (short, size) at h in
            let (packable, all) =
              pack_entries-table es (out ++ e.content) (toc ++ toc_entry c (length out) e) done
                valid.1 next
                (omega
                  (arith, length-append e.content (contents c es), length-append out e.content)) in
            (
              (record { valid = valid.0; short = ltb→lt _ _ short }, packable),
              all ∙ simp (append_assoc, length-append),
            )
      ]

  -- The file that is written, in its parts.
  unpack_table-table :
      (setup : List ℕ) (es : List PayloadEntry)
      → IsLawful c
      → All (IsPackable c) es
      → length setup + length (contents c es) < 2 ^ 64
      → length es < 2 ^ 32
      → let data_end = length setup + length (contents c es) in
        let foot = footer (length es) data_end in
        unpack_table c (setup ++ (contents c es ++ (table c (length setup) es ++ foot))) foot
        ≡ some es
  unfolding unpack_table
  unpack_table-table setup es lawful packable fits few =
      let n = length setup + length (contents c es) in
      let (foot_size, _, f_version, f_count, f_offset) = footer_fields (length es) n in
      let toc = table c (length setup) es in
      let foot = footer (length es) n in
      let front = setup ++ contents c es in
      let exe = setup ++ (contents c es ++ (toc ++ foot)) in
      let split : exe ≡ front ++ (toc ++ foot) = simp append_assoc in
      let n_eq : length front ≡ n = length-append setup (contents c es) in
      let toc_end : length exe - 24 ≡ n + length toc = rw split (
        omega
          (arith, length-append front (toc ++ foot), length-append toc foot, foot_size, n_eq)) in
      let toc_size : n + length toc - n ≡ length toc = omega arith in
      let behind : drop n exe ≡ toc ++ foot = rw split (drop_exact n front (toc ++ foot) n_eq) in
      let count : length es % 2 ^ 32 ≡ length es = omega arith in
      let inside : leb n (n + length toc) ≡ true = le→leb _ _ (omega arith) in
      let enough : leb (length es) (length toc / 51) ≡ true =
        le→leb _ _ (omega (arith, length-table c (length setup) es lawful packable)) in
      let version_ok : from_le_bytes (to_le_bytes 4 version) ≡ version =
        read_u32 version (omega arith) in
      simp
        (
          f_version,
          version_ok,
          f_count,
          count,
          read_u32 (length es) few,
          f_offset,
          read_u64 n fits,
          toc_end,
          inside,
          toc_size,
          behind,
          take_exact (length toc) toc foot refl,
          enough,
        )
        (unpack_entries-table c es setup (toc ++ foot) n lawful packable fits (omega arith))

  -- What `pack` writes.
  pack_parts :
      (setup : List ℕ) (es : List PayloadEntry) (out : List ℕ)
      → pack c setup es ≡ some out
      → length setup + length (contents c es) < 2 ^ 64
      → All (IsPackable c) es
        × (out
            ≡ setup
              ++ (contents c es
                  ++ (table c (length setup) es
                      ++ footer (length es) (length setup + length (contents c es)))))
  unfolding pack
  pack_parts setup es out h fits = elim (Bool-cases (check_names [] es)) [
    | inr bad ↦ ground (arith, h, bad)
    | inl good ↦ elim (Option-cases (pack_entries c setup [] es)) [
      | inl missing ↦ ground (arith, h, good, missing)
      | inr (done, found) ↦
          let (packable, parts) =
            pack_entries-table es setup [] done (check_names-All [] es good) found fits in
          let size : length (setup ++ contents c es) % 2 ^ 64
              ≡ length setup + length (contents c es) =
            omega (arith, length-append setup (contents c es)) in
          let written = rw (good, found, parts, size) at h in
          (packable, sym (some_inj written) ∙ simp append_assoc)
    ]
  ]

  -- A file that is packed unpacks to the entries that were put into it, with their names, contents
  -- and order: where the installer and the contents together have fewer than 2 ^ 64 bytes, there are
  -- fewer than 2 ^ 32 entries, texts are read back from their bytes, and a digest has 32 bytes.
  pub unpack-pack :
      (setup : List ℕ) (es : List PayloadEntry) (out : List ℕ)
      → IsLawful c
      → pack c setup es ≡ some out
      → length setup + length (contents c es) < 2 ^ 64
      → length es < 2 ^ 32
      → unpack c out ≡ some (some es)
  unfolding unpack
  unpack-pack setup es out lawful h fits few =
      let (packable, whole) = pack_parts setup es out h fits in
      let n = length setup + length (contents c es) in
      let foot = footer (length es) n in
      let toc = table c (length setup) es in
      let front = setup ++ (contents c es ++ toc) in
      let (foot_size, f_magic, _, _, _) = footer_fields (length es) n in
      let split : out ≡ front ++ foot = whole ∙ simp append_assoc in
      let size : length out ≡ length front + 24 =
        rw split (omega (arith, length-append front foot, foot_size)) in
      let large : ltb (length out) footer_len ≡ false = ground arith in
      let cut : length out - 24 ≡ length front = omega arith in
      let behind : drop (length front) out ≡ foot =
        rw split (drop_exact (length front) front foot refl) in
      let entries : unpack_table c out foot ≡ some es =
        rw whole (unpack_table-table setup es lawful packable fits few) in
      simp (cut, behind, f_magic, bytes_eq_self magic, large, entries)
