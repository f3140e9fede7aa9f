-- ===== src/Storage/Streams.antt =====
-- The bytes of a stream that was read to its end, as src/storage/mod.rs and src/outbox.rs read one.
use divine_upload_server.Prelude.{
  ℕ, ◌+◌, ◌≡◌, refl, sym, ap, ◌∙◌, inl, inr, List, [], ◌∷◌, ◌++◌, map, length, ltb, append_assoc,
  append-nil, arith, length-append, String,
}
use divine_upload_server.Result.{Result, ok, err, ok-injective, branch, map_err}
use divine_upload_server.Text.Decimal.{max_u64}
use divine_upload_server.Storage.Reads.{bounded}
use divine_upload_server.Resumable.Traits.{Failure, Bytes}

-- A stream without an error, and the bytes of its chunks.
abbrev pub Whole : {E : Type 0} → List (Result E Bytes) → Bytes → Type 0
Whole [] got = got ≡ []
Whole (err e ∷ stream) got = ⊥
Whole (ok chunk ∷ stream) got = (rest : Bytes) × (got ≡ chunk ++ rest) × Whole stream rest

pub Whole-map_err :
    {E F : Type 0} (f : E → F) (stream : List (Result E Bytes)) (got : Bytes)
    → Whole (map (map_err f) stream) got
    → Whole stream got
Whole-map_err f [] got h = h
Whole-map_err f (err e ∷ stream) got h = h
Whole-map_err f (ok chunk ∷ stream) got (rest, same, h) =
    (rest, same, Whole-map_err f stream rest h)

-- What `bounded` collects, after what it had.
pub bounded-Whole :
    (message : String) (stream : List (Result Failure Bytes)) (limit : ℕ) (acc : Bytes) (total : ℕ)
    (got : Bytes × ℕ)
    → bounded message stream limit acc total ≡ ok got
    → (rest : Bytes) × Whole stream rest × (got.0 ≡ acc ++ rest) × (got.1 ≡ total + length rest)
unfolding bounded
bounded-Whole message [] limit acc total got h =
    let same = ok-injective _ _ h in
    ([], refl, sym (ap (λ g. g.0) same) ∙ sym (append-nil acc), omega (arith, ap (λ g. g.1) same))
bounded-Whole message (err e ∷ stream) limit acc total got h = cc h
bounded-Whole message (ok chunk ∷ stream) limit acc total got h =
    elim (branch (ltb max_u64 (total + length chunk)) _ _ _ h) [
      | inl (_, bad) ↦ cc bad
      | inr (_, h1) ↦ elim (branch (ltb limit (total + length chunk)) _ _ _ h1) [
        | inl (_, bad) ↦ cc bad
        | inr (_, h2) ↦
            let (rest, whole, bytes, count) =
              bounded-Whole message stream limit (acc ++ chunk) (total + length chunk) got h2 in
            (
              chunk ++ rest,
              (rest, refl, whole),
              bytes ∙ append_assoc acc chunk rest,
              omega (arith, count, length-append chunk rest),
            )
      ]
    ]
