-- ===== src/Uploads/Addresses.antt =====
-- The key that `deleteFileByUrl` of upload/upload.service.ts reads from an address.
use thunderchat_server.Base.{
  ℕ, ◌≤◌, ◌≡◌, refl, ap, sym, ◌∙◌, arith, false, Option, none, some, [], ◌∷◌, ◌++◌, nat_eq, list_eq,
  length, inl, inr, Option-cases,
}
use thunderchat_server.Security.Utf16.{Text}
use thunderchat_server.Uploads.{Machine, url_of, host_of, or_empty}
use thunderchat_server.Uploads.Names.{units, strip, contains, cut, second_part}
use thunderchat_server.Uploads.Files.{object_key}

-- A prefix that is found is found with the same rest in front of more units.
strip-append :
    (p us rest ks : Text) → strip p us ≡ some rest → strip p (us ++ ks) ≡ some (rest ++ ks)
strip-append [] us rest ks h = ground arith
strip-append (a ∷ p) [] rest ks h = absurd (ground arith)
strip-append (a ∷ p) (u ∷ us) rest ks h = ground (arith, strip-append p us rest ks)

-- A prefix that a text is long enough for, and has not, it has not in front of more units.
strip-none : (p us ks : Text) → length p ≤ length us → strip p us ≡ none → strip p (us ++ ks) ≡ none
strip-none [] us ks le h = absurd (ground arith)
strip-none (a ∷ p) [] ks le h = absurd (omega arith)
strip-none (a ∷ p) (u ∷ us) ks le h = ground (arith, strip-none p us ks)

strip-length : (p us rest : Text) → strip p us ≡ some rest → length p ≤ length us
strip-length [] us rest h = omega arith
strip-length (a ∷ p) [] rest h = absurd (ground arith)
strip-length (a ∷ p) (u ∷ us) rest h = ground (arith, strip-length p us rest)

-- One step of a cut.
cut_here : (p us r : Text) (u : ℕ) → strip p (u ∷ us) ≡ some r → cut p (u ∷ us) ≡ ([], some r)
cut_here p us r u e = rw (e, cut) refl

cut_later :
    (p us : Text) (u : ℕ)
    → strip p (u ∷ us) ≡ none
    → cut p (u ∷ us) ≡ (u ∷ (cut p us).0, (cut p us).1)
cut_later p us u e = rw (e, cut) refl

cut-length : (p us rest : Text) → (cut p us).1 ≡ some rest → length p ≤ length us
cut-length p [] rest h = absurd (ground arith)
cut-length p (u ∷ us) rest h = elim (Option-cases (strip p (u ∷ us))) [
  | inr (r, e) ↦ strip-length p (u ∷ us) r e
  | inl e ↦
      let later : (cut p us).1 ≡ some rest = ap (λ x. x.1) (sym (cut_later p us u e)) ∙ h in
      omega (arith, cut-length p us rest later)
]

cut-append :
    (p us ks before rest : Text)
    → cut p us ≡ (before, some rest)
    → cut p (us ++ ks) ≡ (before, some (rest ++ ks))
cut-append p [] ks before rest h = absurd (ground arith)
cut-append p (u ∷ us) ks before rest h = elim (Option-cases (strip p (u ∷ us))) [
  | inr (r, e) ↦
      let same : ◌≡◌ {A = Text × Option Text} ([], some r) (before, some rest) =
        sym (cut_here p us r u e) ∙ h in
      cut_here p (us ++ ks) (r ++ ks) u (strip-append p (u ∷ us) r ks e) ∙ ground arith
  | inl e ↦
      let same : ◌≡◌ {A = Text × Option Text} (u ∷ (cut p us).0, (cut p us).1) (before, some rest) =
        sym (cut_later p us u e) ∙ h in
      let after : (cut p us).1 ≡ some rest = ap (λ x. x.1) same in
      let long : length p ≤ length us = cut-length p us rest after in
      let more : cut p (us ++ ks) ≡ ((cut p us).0, some (rest ++ ks)) =
        cut-append p us ks (cut p us).0 rest (λ i. ((cut p us).0, after i)) in
      cut_later p (us ++ ks) u (strip-none p (u ∷ us) ks (omega (arith, long)) e)
      ∙ rw more (ground arith)
]

cut-none : (p us : Text) → contains us p ≡ false → cut p us ≡ (us, none)
cut-none p [] h = refl
cut-none p (u ∷ us) h = elim (Option-cases (strip p (u ∷ us))) [
  | inr (r, e) ↦ absurd (ground arith)
  | inl e ↦ cut_later p us u e ∙ rw (cut-none p us (ground arith)) refl
]

second_part_lem :
    (p us before after : Text)
    → cut p us ≡ (before, some after)
    → second_part p us ≡ some (cut p after).0
unfolding second_part
second_part_lem p us before after e = rw (e, second_part) refl

abbrev pub separator : Text
separator = units ".amazonaws.com/"

-- The host of the bucket ends with the first separator in it.
abbrev pub IsHost : Machine → Type 0
IsHost m =
    (front : Text) × (cut separator (host_of (or_empty m.aws_s3_bucket) m.aws_region)
      ≡ (front, some []))

-- The key that is read from the address of an object is its key, where that does not hold the
-- separator itself.
pub object_key-url_of :
    (m : Machine) (key : Text)
    → IsHost m
    → contains key separator ≡ false
    → object_key (url_of m key) ≡ some key
unfolding second_part
object_key-url_of m key (front, host) clean =
    second_part_lem separator (url_of m key) front key
      (cut-append separator (host_of (or_empty m.aws_s3_bucket) m.aws_region) key front [] host)
    ∙ ap some (ap (λ x. x.0) (cut-none separator key clean))
