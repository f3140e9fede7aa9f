-- ===== src/Provider/Chunks.antt =====
-- What the rows of staged chunks protect: a reservation that conflicts, and a chunk whose write has no
-- known outcome.
use divine_upload_server.Prelude.{
  ℕ, ◌≡◌, refl, sym, ap, subst, ◌∙◌, inl, inr, true, ◌&&◌, Option, none, some, List, [], ◌∷◌, ◌++◌,
  any, Bool-cases, ==_iff, if◌then◌else◌, arith, &&-true,
}
use divine_upload_server.Query.{first}
use divine_upload_server.Query.Laws.{first-append-none}
use divine_upload_server.Exec.Success.{Succeeds, Halts, bind-Halts, lift-Halts, passed-Halts}
use divine_upload_server.Exec.{Exec}
use divine_upload_server.Text.{Text, text, str_eq}
use divine_upload_server.Text.Laws.{str_eq_iff, str_eq_refl}
use divine_upload_server.Text.Signed.{ℤ, pos, negsuc}
use divine_upload_server.Storage.Objects.{ObjectRef}
use divine_upload_server.Resumable.Traits.{Failure}
use divine_upload_server.Provider.Tables.{Coordination, ChunkRow, Database, statement, reading}
use divine_upload_server.Provider.Staged.{Surroundings, MediaResumableBackend}
use divine_upload_server.Provider.Assembly.{query-Succeeds}
use divine_upload_server.Provider.Backend.{
  same_i64, is_chunk, find_chunk, reserve_chunk, is_nothing, resolved, of_upload, is_staged_key,
  delete_staged, delete_object,
}

same_i64_refl : (a : ℤ) → same_i64 a a ≡ true
unfolding same_i64
same_i64_refl (pos n) = ground arith
same_i64_refl (negsuc n) = ground arith

same_i64_sound : (a b : ℤ) → same_i64 a b ≡ true → a ≡ b
unfolding same_i64
same_i64_sound (pos a) (pos b) h = ap pos ((==_iff a b).0 h)
same_i64_sound (pos a) (negsuc b) h = cc
same_i64_sound (negsuc a) (pos b) h = cc
same_i64_sound (negsuc a) (negsuc b) h = ap negsuc ((==_iff a b).0 h)

-- The chunk at this offset, with this end and this hash.
abbrev FoundAs : Text → ℤ → ℤ → Text → Coordination → Type 0
FoundAs key start end hash t =
    (row : ChunkRow) × (find_chunk key start t ≡ some row)
    × (row.end_offset ≡ end)
    × (row.sha256 ≡ hash)

-- A reservation that counts one row leaves its chunk in the table.
abbrev Reserved : Text → ℤ → ℤ → Text → ℕ × Coordination → Type 0
Reserved key start end hash out = out.0 ≡ 1 → FoundAs key start end hash out.1

reserved :
    (key : Text) (start end : ℤ) (hash : Text) (t : Coordination)
    → Reserved key start end hash (reserve_chunk key start end hash t)
unfolding reserve_chunk find_chunk is_chunk first
reserved key start end hash t = at (find_chunk key start t) refl
  where
    fresh : ChunkRow
    fresh = record {
      temp_key = key;
      start_offset = start;
      end_offset = end;
      sha256 = hash;
      objects = [];
    }

    at :
        (o : Option ChunkRow)
        → find_chunk key start t ≡ o
        → Reserved key start end hash (elim o [
          | none ↦ (1, record t { chunks = t.chunks ++ fresh ∷ [] })
          | some row ↦
              if same_i64 row.end_offset end && str_eq row.sha256 hash then (1, t) else (0, t)
        ])
    at none absent h = (
      fresh,
      first-append-none _ t.chunks _ absent ∙ rw (str_eq_refl key, same_i64_refl start) refl,
      refl,
      refl,
    )
    at (some row) there h =
        elim (Bool-cases (same_i64 row.end_offset end && str_eq row.sha256 hash)) [
          | inl same ↦
              let (its_end, its_hash) = &&-true (same_i64 row.end_offset end) _ same in
              rw same (row, there, same_i64_sound _ _ its_end, (str_eq_iff _ _).0 its_hash)
          | inr differ ↦ cc (rw differ at h)
        ]

found-reserve :
    (key : Text) (start end end' : ℤ) (hash hash' : Text) (t : Coordination)
    → FoundAs key start end hash t
    → reserve_chunk key start end' hash' t
      ≡ (if same_i64 end end' && str_eq hash hash' then (1, t) else (0, t))
unfolding reserve_chunk
found-reserve key start end end' hash hash' t (row, there, its_end, its_hash) =
    rw (reserve_chunk, there) (rw (its_end, its_hash) refl)

-- Once the bytes of a staged chunk are reserved by their end and their hash, the same reservation can be
-- repeated, any other at the same offset counts no row, and neither changes the tables.
pub reserve_chunk-reserve_chunk :
    (key : Text) (start end end' : ℤ) (hash hash' : Text) (t : Coordination)
    → (reserve_chunk key start end hash t).0 ≡ 1
    → reserve_chunk key start end' hash' (reserve_chunk key start end hash t).1 ≡ (
        if same_i64 end end' && str_eq hash hash'
        then (1, (reserve_chunk key start end hash t).1)
        else (0, (reserve_chunk key start end hash t).1))
reserve_chunk-reserve_chunk key start end end' hash hash' t h =
    found-reserve key start end end' hash hash' _ (reserved key start end hash t h)

-- A chunk without references leaves its upload unresolved.
resolved-none :
    (rows : List ChunkRow) → any (λ r. is_nothing r.objects) rows ≡ true → resolved rows ≡ none
unfolding resolved
resolved-none [] h = cc
resolved-none (row ∷ rows) h = elim (Bool-cases (is_nothing row.objects)) [
  | inl nothing ↦ by_rest (resolved rows) nothing
  | inr something ↦ rw (resolved, resolved-none rows (rw something at h)) refl
]
  where
    by_rest :
        (o : Option (List ObjectRef))
        → is_nothing row.objects ≡ true
        → elim o [
          | none ↦ none
          | some references ↦
              if is_nothing row.objects then none else some (row.objects ++ references)
        ]
          ≡ none
    by_rest none e = refl
    by_rest (some references) e = rw e refl

module _ {W : Type 0} (db : Database W) (key : Text) (w : W)
    (ask_keeps : (v : W) → db.tables (db.available v).1 ≡ db.tables v) where
  abbrev lookup : Exec W Failure (List ChunkRow)
  lookup = statement db (text "Chunk cleanup lookup failed") (reading (of_upload key))

  lookup_keeps :
      ((t : Coordination) (v : W) → db.tables (db.set t v) ≡ t)
      → db.tables (lookup w).1 ≡ db.tables w
  unfolding statement
  lookup_keeps set_reads = elim (Bool-cases (db.available w).0) [
    | inl up ↦ rw up (set_reads _ _ ∙ ask_keeps w)
    | inr down ↦ rw down (ask_keeps w)
  ]

  unresolved_rows :
      (rows : List ChunkRow)
      → any (λ r. is_nothing r.objects) (of_upload key (db.tables w)) ≡ true
      → Succeeds lookup w rows
      → resolved rows ≡ none
  unresolved_rows rows unresolved asked =
      let read =
        query-Succeeds db (text "Chunk cleanup lookup failed") (of_upload key) w rows asked in
      resolved-none rows (
        subst (λ r. any (λ x. is_nothing x.objects) r ≡ true)
          (ap (of_upload key) (sym (ask_keeps w)) ∙ read) unresolved)

module _ {W : Type 0} (host : Surroundings W) (b : MediaResumableBackend W) where
  -- A staged upload with a chunk that has no recorded reference is not deleted, as the write of that
  -- chunk may still be done: the answer is an error, and nothing happens but the lookup of the chunks,
  -- which leaves the tables. Asking for the database leaves its tables, which are read back as they are
  -- set.
  pub delete_object-Unresolved :
      (key : Text) (w : W) (db : Database W)
      → b.database ≡ some db
      → is_staged_key key ≡ true
      → any (λ r. is_nothing r.objects) (of_upload key (db.tables w)) ≡ true
      → ((v : W) → db.tables (db.available v).1 ≡ db.tables v)
      → ((t : Coordination) (v : W) → db.tables (db.set t v) ≡ t)
      → Halts
          (delete_object host b key)
          w
          (statement db (text "Chunk cleanup lookup failed") (reading (of_upload key)) w).1
        × (db.tables (delete_object host b key w).1 ≡ db.tables w)
  unfolding delete_object delete_staged
  delete_object-Unresolved key w db has staged unresolved ask_keeps set_reads =
      let halts : Halts (delete_object host b key) w (lookup db key w ask_keeps w).1 =
        rw (staged, has)
          (passed-Halts db _ w _ (
            bind-Halts (lookup db key w ask_keeps) _ w (λ rows asked.
              rw (unresolved_rows db key w ask_keeps rows unresolved asked) (lift-Halts _ _ _)))) in
      (halts, ap db.tables halts.0 ∙ lookup_keeps db key w ask_keeps set_reads)
