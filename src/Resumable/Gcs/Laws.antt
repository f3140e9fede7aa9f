-- ===== src/Resumable/Gcs/Laws.antt =====
-- Sessions kept in a bucket: what a save and a removal do to the next read, and which errors of the
-- storage are taken for a session that is not there.
use divine_upload_server.Prelude.{
  ℕ, ◌≡◌, ◌↔◌, refl, sym, ap, ◌∙◌, ◌⊎◌, inl, inr, Bool, true, false, ◌||◌, ◌++◌, [], ◌∷◌, Option,
  none, some, Bool-cases, ◌==◌, ==_iff, &&-true, arith,
}
use divine_upload_server.Result.{Result, ok, err}
use divine_upload_server.Result
use divine_upload_server.Text.{Text, text, contains, starts_with}
use divine_upload_server.Resumable.Traits.{Bytes, other}
use divine_upload_server.Resumable.Gcs.{
  GcsClient, SessionJson, is_not_found_error, session_object_key, absent_or_failed, or_absent, load,
}

-- A text that has a mark somewhere.
abbrev pub Has : Text → Text → Type 0
Has mark message = (before : Text) × (after : Text) × (message ≡ before ++ (mark ++ after))

starts_with-after : (p s : Text) → starts_with p s ≡ true → (after : Text) × (s ≡ p ++ after)
unfolding starts_with
starts_with-after [] s h = (s, refl)
starts_with-after (a ∷ p) [] h = cc
starts_with-after (a ∷ p) (c ∷ s) h =
    let (same, rest) = &&-true (a == c) (starts_with p s) h in
    let (after, e) = starts_with-after p s rest in
    (after, ap (λ t. c ∷ t) e ∙ ap (λ x. x ∷ (p ++ after)) (sym ((==_iff a c).0 same)))

starts_with-append : (p after : Text) → starts_with p (p ++ after) ≡ true
unfolding starts_with
starts_with-append [] after = refl
starts_with-append (a ∷ p) after = rw ((==_iff a a).1 refl) (starts_with-append p after)

contains-Has : (mark message : Text) → contains mark message ≡ true → Has mark message
unfolding contains
contains-Has mark [] h = let (after, e) = starts_with-after mark [] h in ([], after, e)
contains-Has mark (c ∷ s) h = elim (Bool-cases (starts_with mark (c ∷ s))) [
  | inl here ↦ let (after, e) = starts_with-after mark (c ∷ s) here in ([], after, e)
  | inr later ↦
      let (before, after, e) = contains-Has mark s (rw later at h) in
      (c ∷ before, after, ap (λ t. c ∷ t) e)
]

Has-contains : (mark before after : Text) → contains mark (before ++ (mark ++ after)) ≡ true
unfolding contains
Has-contains mark [] after = at (mark ++ after) (starts_with-append mark after)
  where
    at : (s : Text) → starts_with mark s ≡ true → contains mark s ≡ true
    at [] h = h
    at (c ∷ s) h = rw h refl
Has-contains mark (c ∷ before) after =
    elim (Bool-cases (starts_with mark (c ∷ (before ++ (mark ++ after))))) [
      | inl here ↦ rw here refl
      | inr later ↦ rw later (Has-contains mark before after)
    ]

-- An error text that names a missing object.
abbrev pub SaysNotFound : Text → Type 0
SaysNotFound m = Has (text "404") m ⊎ (Has (text "Not Found") m ⊎ Has (text "No such object") m)

said : (a b c : Bool) → (a || b || c) ≡ true → (a ≡ true) ⊎ ((b ≡ true) ⊎ (c ≡ true))
said true b c h = inl refl
said false true c h = inr (inl refl)
said false false c h = inr (inr h)

is_not_found_error_iff : (m : Text) → (is_not_found_error m ≡ true) ↔ SaysNotFound m
unfolding is_not_found_error
is_not_found_error_iff m = (
  λ h. elim (said (contains (text "404") m) (contains (text "Not Found") m) _ h) [
    | inl a ↦ inl (contains-Has _ m a)
    | inr (inl b) ↦ inr (inl (contains-Has _ m b))
    | inr (inr c) ↦ inr (inr (contains-Has _ m c))
  ],
  λ says. elim says [
    | inl (x, y, e) ↦ rw (ap (contains (text "404")) e ∙ Has-contains (text "404") x y) refl
    | inr (inl (x, y, e)) ↦
        second (contains (text "404") m) _ (contains (text "No such object") m)
          (ap (contains (text "Not Found")) e ∙ Has-contains (text "Not Found") x y)
    | inr (inr (x, y, e)) ↦
        third (contains (text "404") m) (contains (text "Not Found") m) _
          (ap (contains (text "No such object")) e ∙ Has-contains (text "No such object") x y)
  ],
)
  where
    second : (a b c : Bool) → b ≡ true → (a || b || c) ≡ true
    second a b c h = ground arith

    third : (a b c : Bool) → c ≡ true → (a || b || c) ≡ true
    third a b c h = ground arith

-- What is relied on of the storage, when it serves its requests: `at` is what an object's name finds. An
-- object that is there is downloaded and can be removed, an upload and a removal that succeed are seen,
-- and a request for an object that is not there is refused with an error text that has its status 404.
pub record GcsLaws {W : Type 0} (client : GcsClient W) (at : W → Text → Text → Option Bytes)
    : Type 0 where
  pub download_present :
      (b o : Text) (w : W) (bytes : Bytes)
      → at w b o ≡ some bytes
      → (client.download_object b o w).0 ≡ ok bytes
  pub download_absent :
      (b o : Text) (w : W)
      → at w b o ≡ none
      → (m : Text) × ((client.download_object b o w).0 ≡ err m) × Has (text "404") m
  pub upload_stores :
      (b o content_type : Text) (size : ℕ) (payload : Bytes) (w : W) (u : Unit)
      → (client.upload_object b o content_type size payload w).0 ≡ ok u
      → at (client.upload_object b o content_type size payload w).1 b o ≡ some payload
  pub delete_present :
      (b o : Text) (w : W) (bytes : Bytes)
      → at w b o ≡ some bytes
      → (client.delete_object b o w).0 ≡ ok tt
  pub delete_absent :
      (b o : Text) (w : W)
      → at w b o ≡ none
      → (m : Text) × ((client.delete_object b o w).0 ≡ err m) × Has (text "404") m
  pub delete_removes :
      (b o : Text) (w : W)
      → (client.delete_object b o w).0 ≡ ok tt
      → at (client.delete_object b o w).1 b o ≡ none

-- When the storage refuses the read of a session, the session is taken for one that is not there exactly
-- if the text of the error has `404`, `Not Found` or `No such object`; else the error is the answer.
pub load-reports :
    {W : Type 0} (client : GcsClient W) (bucket : Text) (json : SessionJson) (id : Text) (w : W)
    (m : Text)
    → (client.download_object bucket (session_object_key id) w).0 ≡ err m
    → (((load client bucket json id w).0 ≡ ok none) ↔ SaysNotFound m)
      × (((load client bucket json id w).0 ≡ ok none)
          ⊎ ((load client bucket json id w).0
              ≡ err (other (text "Failed to load session manifest: " ++ m))))
unfolding load or_absent absent_or_failed
load-reports client bucket json id w m refused = elim (Bool-cases (is_not_found_error m)) [
  | inl marked ↦
      rw (refused, marked) (((λ _. (is_not_found_error_iff m).0 marked), (λ _. refl)), inl refl)
  | inr plain ↦
      rw (refused, plain)
        (((λ h. cc h), (λ says. cc (sym plain ∙ (is_not_found_error_iff m).1 says))), inr refl)
]
