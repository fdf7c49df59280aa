-- ===== src/Session/Wire.antt =====
-- The text of a cookie and the payload that it carries.
use pstonn.Prelude.{
  ℕ, ◌+◌, ◌≡◌, ◌≢◌, refl, sym, ap, ap₂, subst, ◌∙◌, Option, none, some, [], ◌∷◌, ◌++◌, Text, All,
  text_eq_refl, ◌==◌, ==_iff, Bool-cases, inl, inr,
}
use pstonn.Session.{
  User, Payload, Codec, Manager, unix, dot, seal, map_option, issue, epoch_for, prepend, cut,
  and_then, open_cookie,
}

-- What the program relies on in JSON, base64 and its alphabet.
pub record IsCodec (k : Codec) : Type 0 where
  pub json : (p : Payload) → (b : Text) × (k.marshal p ≡ some b) × (k.unmarshal b ≡ some p)
  pub base64 : (b : Text) → k.from_base64 (k.to_base64 b) ≡ some b
  pub no_dot : (b : Text) → All (λ c. c ≢ dot) (k.to_base64 b)

-- The payload that `issue` puts into a cookie.
abbrev pub payload_at : Codec → Manager → ℕ → User → ℕ → Payload
payload_at k m now u iat = record {
  user = u;
  exp = unix (now + m.ttl);
  iat = iat;
  ep = epoch_for k m u.email;
}

cut-append : (a b : Text) → All (λ c. c ≢ dot) a → cut (a ++ dot ∷ b) ≡ some (a, b)
unfolding cut
cut-append [] b h = refl
cut-append (c ∷ a) b h = elim (Bool-cases (c == dot)) [
  | inl e ↦ absurd (h.0 ((==_iff c dot).0 e))
  | inr e ↦ rw (e, cut-append a b h.1) refl
]

prepend-some :
    (c : ℕ) (r : Option (Text × Text)) {p : Text × Text}
    → prepend c r ≡ some p
    → (a : Text) × (r ≡ some (a, p.1)) × (c ∷ a ≡ p.0)
prepend-some c none h = absurd (cc h)
prepend-some c (some (a, b)) h = (a, cc h, cc h)

-- What is cut at a dot is the text before it, and the text after it.
pub cut_sound : (s : Text) {a b : Text} → cut s ≡ some (a, b) → s ≡ a ++ dot ∷ b
unfolding cut
cut_sound [] h = absurd (cc h)
cut_sound (c ∷ s) {a} {b} h = elim (Bool-cases (c == dot)) [
  | inl e ↦
      let at : some ([], s) ≡ some (a, b) = sym (rw e refl) ∙ h in
      let front : [] ≡ a = cc at in
      let back : s ≡ b = cc at in
      ap₂ (λ x t. x ∷ t) ((==_iff c dot).0 e) back ∙ ap (λ t. t ++ dot ∷ b) front
  | inr e ↦
      let at : prepend c (cut s) ≡ some (a, b) = sym (rw e refl) ∙ h in
      let (a', r, front) = prepend-some c (cut s) at in
      ap (λ t. c ∷ t) (cut_sound s r) ∙ ap (λ t. t ++ dot ∷ b) front
]

open_cookie-seal :
    (k : Codec) (w : IsCodec k) (body : Text) → open_cookie k (seal k body) ≡ k.unmarshal body
unfolding open_cookie seal
open_cookie-seal k w body =
    rw
      (
        cut-append (k.to_base64 body) (k.sign (k.to_base64 body)) (w.no_dot body),
        text_eq_refl (k.sign (k.to_base64 body)),
        w.base64 body,
      )
      refl

-- A cookie that was issued carries its payload.
pub open_cookie-issue :
    (k : Codec)
    → IsCodec k
    → (m : Manager) (now : ℕ) (u : User) (iat : ℕ) {v : Text} → issue k m now u iat ≡ some v
    → open_cookie k v ≡ some (payload_at k m now u iat)
unfolding issue
open_cookie-issue k w m now u iat {v} h =
    let p = payload_at k m now u iat in
    let (body, marshalled, unmarshalled) = w.json p in
    let same : some (seal k body) ≡ some v = sym (ap (map_option (seal k)) marshalled) ∙ h in
    let value : seal k body ≡ v = cc same in
    subst (λ x. open_cookie k x ≡ some p) value (open_cookie-seal k w body ∙ unmarshalled)

pub and_then-some :
    {A B : Type 0} (o : Option A) (f : A → Option B) {b : B}
    → and_then o f ≡ some b
    → (a : A) × (o ≡ some a) × (f a ≡ some b)
and_then-some none f h = absurd (cc h)
and_then-some (some a) f h = (a, refl, h)
