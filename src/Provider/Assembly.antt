-- ===== src/Provider/Assembly.antt =====
-- A file that was assembled is the chunks of its upload, one after another, each with its hash.
mod Tests
use mathlib.Core.Option.{some-injective}
use divine_upload_server.Prelude.{
  ℕ, ◌+◌, ◌≤◌, ◌≡◌, refl, sym, ap, subst, ◌∙◌, Bool, true, false, not, ◌||◌, Option, some, List, [],
  ◌∷◌, ◌++◌, ◌==◌, ltb, length, append_assoc, Bool-cases, inl, inr, append-nil, arith, ==_iff,
}
use divine_upload_server.Result.{ok, ok-injective, ok_or-some, both-hold, not_refused_if}
use divine_upload_server.Exec.Success.{
  Succeeds, bind-Succeeds, lift-Succeeds, pure-Succeeds, pure_world,
}
use divine_upload_server.Exec.{Exec, pure, ◌>>=◌, ◌>>◌}
use divine_upload_server.Exec.Meets.{Meets, Meets-checked, Meets-call, Holds-of}
use divine_upload_server.Storage.Objects.{ObjectRef, StorageProvider}
use divine_upload_server.Storage.Media.{GcsCalls, B2Store}
use divine_upload_server.Storage.Reads.{read_ref, read_gcs, read_b2}
use divine_upload_server.Text.{Text, text, str_eq}
use divine_upload_server.Text.Laws.{str_eq_iff}
use divine_upload_server.Text.Signed.{ℤ, pos, negsuc}
use divine_upload_server.Resumable.Traits.{Failure, Bytes}
use divine_upload_server.Provider.Tables.{Coordination, ChunkRow, Database, statement, reading}
use divine_upload_server.Provider.Staged.{
  Surroundings, MediaResumableBackend, is_gap, span, digest, database_of, assemble, assemble_file,
  chunks_of,
}

no_gap : (a b offset : ℕ) → (ltb b a || not (a == offset)) ≡ false → (a ≤ b) × (a ≡ offset)
no_gap a b offset h = ground arith

-- A range without a gap before it, whose length is that of some bytes.
span_of :
    (start end : ℤ) (offset size : ℕ)
    → is_gap start end offset ≡ false
    → size ≡ span start end
    → (start ≡ pos offset) × ((b : ℕ) × (end ≡ pos b) × (b + 1 ≡ offset + size))
unfolding is_gap span
span_of (negsuc n) end offset size h e = cc
span_of (pos a) (negsuc n) offset size h e = cc
span_of (pos a) (pos b) offset size h e =
    let (ordered, same) = no_gap a b offset h in
    (ap pos same, (b, refl, omega (arith, ordered, same, e)))

-- What a query that answers has read.
pub query-Succeeds :
    {W A : Type 0} (db : Database W) (message : Text) (f : Coordination → A) (w : W) (a : A)
    → Succeeds (statement db message (reading f)) w a
    → f (db.tables (db.available w).1) ≡ a
unfolding statement
query-Succeeds db message f w a h = elim (Bool-cases (db.available w).0) [
  | inl up ↦ ok-injective _ _ (rw up at h)
  | inr down ↦ cc (rw down at h)
]

module _ {W : Type 0} (host : Surroundings W) (b : MediaResumableBackend W) where
  -- The rest of a file, from the chunks that are left.
  abbrev pub Assembled : List ChunkRow → ℕ → Bytes → Type 0
  Assembled [] offset rest = rest ≡ []
  Assembled (row ∷ rows) offset rest =
      (bytes : Bytes) × (tail : Bytes) × (rest ≡ bytes ++ tail)
      × (row.start_offset ≡ pos offset)
      × ((last : ℕ) × (row.end_offset ≡ pos last) × (last + 1 ≡ offset + length bytes))
      × (digest host b bytes ≡ row.sha256)
      × Assembled rows (offset + length bytes) tail

  -- What is relied on of the files, whose bytes `contents` gives: a file is created empty, an append that
  -- succeeds adds its bytes, and a sync, a read of the storage or a statement changes no file; creating a
  -- file, and asking for the database, leave its tables.
  pub record FileLaws (db : Database W) (contents : W → Text → Bytes) : Type 0 where
    pub create_empty :
        (w : W) (path : Text)
        → Succeeds host.files.create w path
        → contents (host.files.create w).1 path ≡ []
    pub append_adds :
        (path : Text) (bytes : Bytes) (w : W)
        → Succeeds (host.files.append path bytes) w tt
        → contents (host.files.append path bytes w).1 path ≡ contents w path ++ bytes
    pub sync_keeps :
        (path : Text) (w : W) → contents (host.files.sync path w).1 path ≡ contents w path
    pub download_keeps :
        (gcs : GcsCalls W) (bucket key : Text) (generation : Option ℤ) (w : W) (path : Text)
        → b.storage.gcs ≡ some gcs
        → contents (gcs.download_object bucket key generation w).1 path ≡ contents w path
    pub read_keeps :
        (b2 : B2Store W) (reference : ObjectRef) (w : W) (path : Text)
        → b.storage.b2 ≡ some b2
        → contents (b2.read reference w).1 path ≡ contents w path
    pub available_keeps : (w : W) (path : Text) → contents (db.available w).1 path ≡ contents w path
    pub set_keeps :
        (t : Coordination) (w : W) (path : Text) → contents (db.set t w) path ≡ contents w path
    pub create_tables : (w : W) → db.tables (host.files.create w).1 ≡ db.tables w
    pub available_tables : (w : W) → db.tables (db.available w).1 ≡ db.tables w

  module _ (db : Database W) (contents : W → Text → Bytes) (laws : FileLaws db contents) where
    abbrev HasBytes : Text → Bytes → W → Type 0
    HasBytes path bytes w = contents w path ≡ bytes

    -- A copy is read without a change of the file.
    read_ref-Meets :
        (path : Text) (bytes : Bytes) (reference : ObjectRef)
        → Meets (HasBytes path bytes) (λ _. Unit) (read_ref host.machine b.storage reference)
    unfolding read_ref
    read_ref-Meets path bytes reference = by_provider reference.provider
      where
        by_provider :
            (provider : StorageProvider)
            → Meets
                (HasBytes path bytes)
                (λ _. Unit)
                (elim provider [
                  | StorageProvider.gcs ↦ read_gcs host.machine b.storage reference
                  | StorageProvider.b2 ↦ read_b2 host.machine b.storage reference
                ])
        by_provider StorageProvider.gcs = Meets-checked _ λ _ _. Meets-checked _ λ generation _.
            Meets-checked _ λ gcs there. Meets-call _ (record {
              at = λ w h. (
                laws.download_keeps gcs _ _ generation w path (ok_or-some _ _ there) ∙ h,
                Holds-of (λ _. Unit) _ (λ _ _. tt),
              );
            })
        by_provider StorageProvider.b2 = Meets-checked _ λ b2 there. record {
          at = λ w h. (
            laws.read_keeps b2 reference w path (ok_or-some _ _ there) ∙ h,
            Holds-of (λ _. Unit) _ (λ _ _. tt),
          );
        }

    read_ref-keeps :
        (path : Text) (reference : ObjectRef) (w : W)
        → contents (read_ref host.machine b.storage reference w).1 path ≡ contents w path
    read_ref-keeps path reference w =
        ((read_ref-Meets path (contents w path) reference).at w refl).0

    query-keeps :
        {A : Type 0} (message : Text) (f : Coordination → A) (path : Text) (w : W)
        → contents (statement db message (reading f) w).1 path ≡ contents w path
    unfolding statement
    query-keeps message f path w = elim (Bool-cases (db.available w).0) [
      | inl up ↦ rw up (laws.set_keeps _ _ path ∙ laws.available_keeps w path)
      | inr down ↦ rw down (laws.available_keeps w path)
    ]

    -- The checks of one chunk.
    chunk-checked :
        (row : ChunkRow) (offset : ℕ) (bytes : Bytes)
        → is_gap row.start_offset row.end_offset offset ≡ false
        → (not (length bytes == span row.start_offset row.end_offset)
            || not (str_eq (digest host b bytes) row.sha256))
          ≡ false
        → (row.start_offset ≡ pos offset)
          × ((last : ℕ) × (row.end_offset ≡ pos last) × (last + 1 ≡ offset + length bytes))
          × (digest host b bytes ≡ row.sha256)
    chunk-checked row offset bytes no_gap_here intact =
        let (long, hashed) =
          both-hold (length bytes == span row.start_offset row.end_offset) _ intact in
        let (first, last) =
          span_of row.start_offset row.end_offset offset (length bytes) no_gap_here
            ((==_iff _ _).0 long) in
        (first, last, (str_eq_iff _ _).0 hashed)

    assemble-Assembled :
        (path : Text) (rows : List ChunkRow) (offset : ℕ) (w : W)
        → Succeeds (assemble host b path rows offset) w tt
        → (rest : Bytes) × (contents (assemble host b path rows offset w).1 path
            ≡ contents w path ++ rest)
          × Assembled rows offset rest
    unfolding assemble
    assemble-Assembled path [] offset w h = (
      [],
      ap (λ v. contents v path) (pure_world Failure tt w) ∙ sym (append-nil (contents w path)),
      refl,
    )
    assemble-Assembled path (row ∷ rows) offset w h =
        let (_, no_gap_here, h1, w1) = lift-Succeeds _ _ w tt h in
        let (_, _, h2, w2) = lift-Succeeds _ _ w tt h1 in
        let (reference, _, h3, w3) = lift-Succeeds _ _ w tt h2 in
        let (bytes, _, h4, w4) = bind-Succeeds _ _ w tt h3 in
        let (_, intact, h5, w5) = lift-Succeeds _ _ _ tt h4 in
        let (_, _, h6, w6) = lift-Succeeds _ _ _ tt h5 in
        let (_, _, h7, w7) = lift-Succeeds _ _ _ tt h6 in
        let (_, appended, h8, w8) = bind-Succeeds _ _ _ tt h7 in
        let (tail, same, rest) = assemble-Assembled path rows (offset + length bytes) _ h8 in
        let (first, last, hashed) =
          chunk-checked row offset bytes (not_refused_if _ _ no_gap_here)
            (not_refused_if _ _ intact) in
        (
          bytes ++ tail,
          ap (λ v. contents v path) (w1 ∙ w2 ∙ w3 ∙ w4 ∙ w5 ∙ w6 ∙ w7 ∙ w8)
              ∙ same
              ∙ ap (λ c. c ++ tail)
                  (laws.append_adds path bytes _ appended
                    ∙ ap (λ c. c ++ bytes) (read_ref-keeps path reference w))
              ∙ append_assoc (contents w path) bytes tail,
          (bytes, tail, refl, first, last, hashed, rest),
        )

    write_chunks : Text → List ChunkRow → Exec W Failure Text
    write_chunks file rows = do assemble host b file rows 0; host.files.sync file; pure file

    write_chunks-Assembled :
        (file : Text) (rows : List ChunkRow) (v : W) (path : Text)
        → contents v file ≡ []
        → Succeeds (write_chunks file rows) v path
        → Assembled rows 0 (contents (write_chunks file rows v).1 path)
    unfolding write_chunks
    write_chunks-Assembled file rows v path empty h =
        let (_, assembled, h1, w1) = bind-Succeeds (assemble host b file rows 0) _ v path h in
        let (_, _, done, w2) = bind-Succeeds (host.files.sync file) _ _ path h1 in
        let (rest, same, chunks) = assemble-Assembled file rows 0 v assembled in
        let world = w1 ∙ w2 ∙ pure_world Failure file _ in
        let here =
          ap (λ u. contents u file) world
          ∙ laws.sync_keeps file _
          ∙ same
          ∙ ap (λ c. c ++ rest) empty in
        subst (λ p. Assembled rows 0 (contents (write_chunks file rows v).1 p))
          (pure-Succeeds file _ path done) (subst (Assembled rows 0) (sym here) chunks)

    fill : Text → Text → Database W → Exec W Failure Text
    fill key file db' = do
      rows ← statement db' (text "Upload chunk lookup failed") (reading (chunks_of key))
      write_chunks file rows

    fill-Assembled :
        (key file : Text) (v : W) (path : Text)
        → contents v file ≡ []
        → Succeeds (fill key file db) v path
        → Assembled (chunks_of key (db.tables v)) 0 (contents (fill key file db v).1 path)
    unfolding fill
    fill-Assembled key file v path empty h =
        let lookup = statement db (text "Upload chunk lookup failed") (reading (chunks_of key)) in
        let (rows, asked, h1, w1) = bind-Succeeds lookup _ v path h in
        let read =
          query-Succeeds db (text "Upload chunk lookup failed") (chunks_of key) v rows asked in
        let chunks =
          write_chunks-Assembled file rows _ path
            (query-keeps (text "Upload chunk lookup failed") (chunks_of key) file v ∙ empty) h1 in
        subst (λ u. Assembled (chunks_of key (db.tables v)) 0 (contents u path)) (sym w1)
          (subst (λ r. Assembled r 0 (contents (write_chunks file rows (lookup v).1).1 path))
            (sym read ∙ ap (chunks_of key) (laws.available_tables v)) chunks)

    -- A file that was assembled holds the chunks of its upload in the order of their offsets: the first
    -- starts at 0 and each later one where the one before it ends, each is as long as its row says, and
    -- has the hash of its row. A file is created empty, an append that succeeds adds its bytes, and no
    -- other call changes it; creating a file, and asking for the database, leave its tables.
    pub assemble_file-Assembled :
        (key : Text) (w : W) (path : Text)
        → b.database ≡ some db
        → Succeeds (assemble_file host b key) w path
        → Assembled (chunks_of key (db.tables w)) 0 (contents (assemble_file host b key w).1 path)
    unfolding assemble_file fill write_chunks
    assemble_file-Assembled key w path has h =
        let (file, created, h1, w1) = bind-Succeeds host.files.create _ w path h in
        let (found, is_db, h2, w2) = lift-Succeeds (database_of host b) _ _ path h1 in
        let same_db = some-injective _ _ (sym has ∙ ok_or-some b.database _ is_db) in
        let start = (host.files.create w).1 in
        let chunks =
          subst
            (λ d.
              Succeeds (fill key file d) start path
              → Assembled (chunks_of key (db.tables start)) 0
                  (contents (fill key file d start).1 path))
            same_db (fill-Assembled key file start path (laws.create_empty w file created)) h2 in
        subst (λ u. Assembled (chunks_of key (db.tables w)) 0 (contents u path)) (sym (w1 ∙ w2))
          (subst (λ t. Assembled (chunks_of key t) 0 (contents (fill key file found start).1 path))
            (laws.create_tables w) chunks)
