-- ===== src/Provider/Backend.antt =====
-- `MediaResumableBackend` of src/resumable_storage.rs: an upload is staged as chunks in the storage that
-- its session began with, and promoted by a write of the assembled file.
use divine_upload_server.Prelude.{
  ℕ, zero, suc, ◌+◌, Bool, true, false, not, ◌&&◌, Option, none, some, List, [], ◌∷◌, ◌++◌, ◌==◌,
  ltb, length, map, take, if◌then◌else◌,
}
use divine_upload_server.Query.{filter, first}
use divine_upload_server.Result.{Result, ok, ok_or, refuse_if}
use divine_upload_server.Exec.{Exec, pure, lift, ◌>>=◌, ◌>>◌}
use divine_upload_server.Text.{Text, text, str_eq, starts_with}
use divine_upload_server.Text.Decimal.{show}
use divine_upload_server.Text.Signed.{ℤ, pos, negsuc, max_i64, as_u64, as_i64}
use divine_upload_server.Storage.Objects.{ObjectRef, WriteMode, dual}
use divine_upload_server.Storage.Media.{MediaStorage, b2_bucket, with_mode, writes_b2}
use divine_upload_server.Storage.Reads.{stat}
use divine_upload_server.Storage.Writes.{put, put_file, delete_ref}
use divine_upload_server.Resumable.Data.{
  UploadSession, ContentRange, BackendCreateSession, BackendUploadState, in_progress, completed,
  len,
}
use divine_upload_server.Resumable.Traits.{Failure, other, Bytes}
use divine_upload_server.Provider.Tables.{Coordination, ChunkRow, FinalRow, statement, reading}
use divine_upload_server.Provider.Identity.{or_nothing}
use divine_upload_server.Provider.Staged.{
  Surroundings, MediaResumableBackend, legacy_of, database_of, staged, digest, assemble_file,
}

abbrev pub staged_v1 : Text
staged_v1 = text "staged-v1"

abbrev pub is_staged_session : UploadSession → Bool
is_staged_session s = str_eq s.session_url staged_v1

abbrev pub is_staged_key : Text → Bool
is_staged_key key = starts_with (text "__resumable/staged/") key

unfoldable pub same_i64 : ℤ → ℤ → Bool
same_i64 (pos a) (pos b) = a == b
same_i64 (negsuc a) (negsuc b) = a == b
same_i64 _ _ = false

-- The chunk of an upload that starts at an offset.
unfoldable pub is_chunk : Text → ℤ → ChunkRow → Bool
is_chunk key start r = str_eq r.temp_key key && same_i64 r.start_offset start

unfoldable pub find_chunk : Text → ℤ → Coordination → Option ChunkRow
find_chunk key start t = first (is_chunk key start) t.chunks

abbrev pub is_nothing : List ObjectRef → Bool
is_nothing [] = true
is_nothing (r ∷ rs) = false

-- A chunk that is recorded with its references, and has the bytes of a repeated request.
unfoldable pub is_same_chunk : ContentRange → Bytes → Text → Option ChunkRow → Bool
is_same_chunk range chunk hash none = false
is_same_chunk range chunk hash (some row) =
    as_u64 row.end_offset == range.end
    && length chunk == len range
    && str_eq row.sha256 hash
    && not (is_nothing row.objects)

-- `INSERT ... ON CONFLICT ... DO UPDATE ... WHERE`: a chunk is reserved, or it was reserved with the
-- same end and hash; the count of rows.
unfoldable pub reserve_chunk : Text → ℤ → ℤ → Text → Coordination → ℕ × Coordination
reserve_chunk key start end hash t = elim (find_chunk key start t) [
  | none ↦ (
    1,
    record t {
      chunks =
          t.chunks
          ++ record {
            temp_key = key;
            start_offset = start;
            end_offset = end;
            sha256 = hash;
            objects = [];
          }
            ∷ [];
    },
  )
  | some row ↦ if same_i64 row.end_offset end && str_eq row.sha256 hash then (1, t) else (0, t)
]

unfoldable pub record_chunk : Text → ℤ → List ObjectRef → Coordination → Coordination
record_chunk key start objects t = record t {
  chunks = map (λ r. if is_chunk key start r then record r { objects = objects } else r) t.chunks;
}

-- The references of the chunks, or none where one of them has none.
unfoldable pub resolved : List ChunkRow → Option (List ObjectRef)
resolved [] = some []
resolved (row ∷ rows) = elim (resolved rows) [
  | none ↦ none
  | some references ↦ if is_nothing row.objects then none else some (row.objects ++ references)
]

abbrev pub of_upload : Text → Coordination → List ChunkRow
of_upload key t = filter (λ r. str_eq r.temp_key key) t.chunks

unfoldable pub forget_chunks : Text → Coordination → Coordination
forget_chunks key t = record t { chunks = filter (λ r. not (str_eq r.temp_key key)) t.chunks }

unfoldable pub find_final : Text → Coordination → Option FinalRow
find_final key t = first (λ r. str_eq r.temp_key key) t.finals

-- `INSERT ... ON CONFLICT(temp_key) DO UPDATE SET objects=EXCLUDED.objects`
unfoldable pub record_final : Text → List ObjectRef → Coordination → Coordination
record_final key objects t = elim (find_final key t) [
  | none ↦ record t { finals = t.finals ++ record { temp_key = key; objects = objects } ∷ [] }
  | some row ↦ record t {
    finals =
        map (λ r. if str_eq r.temp_key key then record r { objects = objects } else r) t.finals;
  }
]

unfoldable pub mode_name : WriteMode → Text
mode_name WriteMode.gcs = text "gcs"
mode_name WriteMode.b2 = text "b2"
mode_name dual = text "dual"

abbrev is_gcs : WriteMode → Bool
is_gcs mode = not (writes_b2 mode)

abbrev drop : ℕ → Bytes → Bytes
drop zero bytes = bytes
drop (suc n) [] = []
drop (suc n) (byte ∷ bytes) = drop n bytes

-- A file is read by buffers of a mebibyte, until a read gives nothing; there are at most as many pieces
-- as bytes.
unfoldable pub pieces : ℕ → Bytes → List Bytes
pieces zero content = []
pieces (suc n) [] = []
pieces (suc n) content = take 1048576 content ∷ pieces n (drop 1048576 content)

module _ {W : Type 0} (host : Surroundings W) (b : MediaResumableBackend W) where
  unfoldable pub is_committed_retry : UploadSession → ContentRange → Bytes → Exec W Failure Bool
  is_committed_retry s range chunk = if not (is_staged_session s) then pure false else do
    db ← lift (database_of host b)
    row ←
        statement db (text "Chunk retry lookup failed")
          (reading (find_chunk s.temp_object (as_i64 range.start)))
    pure (is_same_chunk range chunk (digest host b chunk) row)

  -- The outbox's `begin_upload`, with the storage of the session.
  unfoldable pub begin_finalization :
      (MediaStorage W → Text → ℕ → Text → Text → Exec W Failure Unit)
      → UploadSession
      → Exec W Failure Unit
  begin_finalization begin_upload s = do
    store ← lift (
        if is_staged_session s
        then staged host b s.temp_object
        else with_mode b.storage WriteMode.gcs)
    begin_upload store s.final_sha256 s.declared_size s.content_type s.owner

  staged_final_objects : UploadSession → Exec W Failure (List ObjectRef)
  staged_final_objects s = do
    db ← lift (database_of host b)
    found ← statement db (text "Final object lookup failed") (reading (find_final s.temp_object))
    row ← lift (ok_or found (other (text "Final object references missing")))
    pure row.objects

  gcs_final_objects : UploadSession → Exec W Failure (List ObjectRef)
  gcs_final_objects s = do
    store ← lift (with_mode b.storage WriteMode.gcs)
    found ← stat host.machine store s.final_sha256
    object ← lift (ok_or found (other (text "Final GCS object missing")))
    pure (object.reference ∷ [])

  unfoldable pub final_objects : UploadSession → Exec W Failure (List ObjectRef)
  unfolding staged_final_objects gcs_final_objects
  final_objects s = if is_staged_session s then staged_final_objects s else gcs_final_objects s

  legacy_finalize : UploadSession → Exec W Failure Bool
  legacy_finalize s = do
    legacy ← lift (legacy_of host b)
    exists ← legacy.object_exists s.final_sha256
    if exists
        then pure false
        else do legacy.copy_to_final s.temp_object s.final_sha256 s.content_type s.owner; pure true

  staged_finalize : UploadSession → Exec W Failure Bool
  staged_finalize s = do
    path ← assemble_file host b s.temp_object
    store ← lift (staged host b s.temp_object)
    result ← put_file host.machine store s.final_sha256 path s.content_type (some s.owner)
    db ← lift (database_of host b)
    statement db (text "Failed to persist final object references")
        (λ t. (tt, record_final s.temp_object result.objects t))
    pure result.newly_stored

  unfoldable pub finalize : UploadSession → Exec W Failure Bool
  unfolding legacy_finalize staged_finalize
  finalize s = if not (is_staged_session s) then legacy_finalize s else staged_finalize s

  unfoldable pub staged_key : Text → Text
  staged_key id =
      text "__resumable/staged/"
      ++ (mode_name b.storage.mode
          ++ (text "/"
              ++ (host.hex b.storage.gcs_bucket
                  ++ (text "/"
                      ++ (host.hex (or_nothing (b2_bucket b.storage)) ++ (text "/" ++ id))))))

  staged_create : Text → ℕ → Exec W Failure BackendCreateSession
  staged_create id size = do
    lift (refuse_if (ltb max_i64 size) (other (text "Upload exceeds supported offset range")))
    pure (record { session_url = staged_v1; temp_object = staged_key id })

  unfoldable pub create_session : Text → Text → Text → ℕ → Exec W Failure BackendCreateSession
  unfolding staged_create
  create_session id owner content_type size =
      if not (is_gcs b.storage.mode) then staged_create id size else do
        legacy ← lift (legacy_of host b)
        legacy.backend.create_session id owner content_type size

  abbrev chunk_key : UploadSession → ContentRange → Bytes → Text
  chunk_key s range chunk =
      s.temp_object
      ++ (text "/chunks/"
          ++ (show range.start
              ++ (text "-" ++ (show range.end ++ (text "-" ++ digest host b chunk)))))

  unfoldable pub stage_chunk :
      UploadSession → ContentRange → Bytes → Exec W Failure BackendUploadState
  stage_chunk s range chunk = do
    store ← lift (staged host b s.temp_object)
    db ← lift (database_of host b)
    reserved ←
        statement db (text "Failed to reserve upload chunk") (
          reserve_chunk s.temp_object (as_i64 range.start) (as_i64 range.end) (digest host b chunk))
    lift (
        refuse_if (not (reserved == 1))
          (other (text "Conflicting bytes already committed at upload offset")))
    result ←
        put host.machine store (chunk_key s range chunk) chunk (text "application/octet-stream")
          (some s.owner)
    statement db (text "Failed to persist upload chunk")
        (λ t. (tt, record_chunk s.temp_object (as_i64 range.start) result.objects t))
    pure (if range.end + 1 == range.total then completed else in_progress)

  unfoldable pub upload_chunk :
      UploadSession → ContentRange → Bytes → Exec W Failure BackendUploadState
  upload_chunk s range chunk =
      if is_staged_session s
      then stage_chunk s range chunk
      else do legacy ← lift (legacy_of host b); legacy.backend.upload_chunk s range chunk

  unfoldable pub delete_refs : List ObjectRef → Exec W Failure Unit
  delete_refs [] = pure tt
  delete_refs (reference ∷ references) = do
    delete_ref host.machine b.storage reference
    delete_refs references

  unfoldable pub delete_staged : Text → Exec W Failure Unit
  delete_staged key = do
    db ← lift (database_of host b)
    rows ← statement db (text "Chunk cleanup lookup failed") (reading (of_upload key))
    references ← lift (
        ok_or (resolved rows) (
          other (
            text "Chunk upload outcome is unresolved; retain session for operator reconciliation")))
    delete_refs references
    statement db (text "Chunk cleanup failed") (λ t. (tt, forget_chunks key t))

  unfoldable pub delete_object : Text → Exec W Failure Unit
  delete_object key =
      if is_staged_key key
      then delete_staged key
      else do legacy ← lift (legacy_of host b); legacy.backend.delete_object key

  unfoldable pub cancel_session : UploadSession → Exec W Failure Unit
  cancel_session s =
      if is_staged_session s
      then delete_object s.temp_object
      else do legacy ← lift (legacy_of host b); legacy.backend.cancel_session s

  stream_file : Text → Exec W Failure (List (Result Failure Bytes))
  stream_file key = do
    path ← assemble_file host b key
    content ← host.machine.read_file path
    pure (map ok (pieces (length content) content))

  unfoldable pub stream_object : Text → Exec W Failure (List (Result Failure Bytes))
  unfolding stream_file
  stream_object key =
      if is_staged_key key
      then stream_file key
      else do legacy ← lift (legacy_of host b); legacy.backend.stream_object key

  unfoldable pub object_exists : Text → Exec W Failure Bool
  object_exists key = pure false

  staged_copy : Text → Text → Text → Text → Exec W Failure Unit
  staged_copy source dest content_type owner = do
    path ← assemble_file host b source
    store ← lift (staged host b source)
    put_file host.machine store dest path content_type (some owner)
    pure tt

  unfoldable pub copy_to_final : Text → Text → Text → Text → Exec W Failure Unit
  unfolding staged_copy
  copy_to_final source dest content_type owner =
      if is_staged_key source
      then staged_copy source dest content_type owner
      else do legacy ← lift (legacy_of host b); legacy.copy_to_final source dest content_type owner
