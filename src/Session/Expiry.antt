-- ===== src/Session/Expiry.antt =====
-- Who is let in, and until when.
use pstonn.Prelude.{
  ℕ, ◌+◌, ◌*◌, ◌≤◌, ◌<◌, ◌≡◌, ◌≢◌, refl, sym, ap, subst, ◌∙◌, Bool, true, false, ◌&&◌, Option, none,
  some, List, [], ◌∷◌, ◌++◌, Text, Map, lookup-insert, text_eq, text_eq_iff, text_eq_refl,
  if◌then◌else◌, Bool-cases, inl, inr, arith,
}
use pstonn.Clock.{hour, day_length, max_duration}
use pstonn.Session.{
  User, Payload, Codec, Manager, unix, from_unix, dot, issue, begin, revoke_to, epoch_for, or_zero,
  normalise, cut, and_then, open_cookie, ceiling, is_empty, is_refused, renews, answer, decode,
}
use pstonn.Session.Wire.{IsCodec, payload_at, cut_sound, and_then-some, open_cookie-issue}

if_none :
    {A : Type 0} (b : Bool) (x : A) {y : A}
    → (if b then none else some x) ≡ some y
    → (b ≡ false) × (x ≡ y)
if_none true x h = absurd (cc h)
if_none false x h = (refl, cc h)

if_some :
    {A : Type 0} (b : Bool) (x : Option A) {y : A}
    → (if b then x else none) ≡ some y
    → (b ≡ true) × (x ≡ some y)
if_some true x h = (refl, h)
if_some false x h = absurd (cc h)

-- The value carries a payload that Decode does not refuse.
record Admits (k : Codec) (m : Manager) (now : ℕ) (v : Text) (u : User) : Type 0 where
  payload : Payload
  opened : open_cookie k v ≡ some payload
  fresh : is_refused k m now payload ≡ false
  user : payload.user ≡ u

decode-Admits :
    (k : Codec) (m : Manager) (now : ℕ) (writes : Bool) (v : Text) {u : User} {out : Option Text}
    → decode k m now writes (some v) ≡ some (u, out)
    → Admits k m now v u
unfolding decode answer
decode-Admits k m now writes v h =
    let (p, o, a) = and_then-some (open_cookie k v) (answer k m now writes) h in
    let (f, same) = if_none (is_refused k m now p) _ a in
    record { payload = p; opened = o; fresh = f; user = ap (λ r. r.0) same }

-- A cookie that is let in is a text followed by a dot and the signature of that text.
pub decode-seal :
    (k : Codec) (m : Manager) (now : ℕ) (writes : Bool) (v : Text) {u : User} {out : Option Text}
    → decode k m now writes (some v) ≡ some (u, out)
    → (a : Text) × (v ≡ a ++ dot ∷ k.sign a)
unfolding open_cookie
decode-seal k m now writes v h =
    let d = decode-Admits k m now writes v h in
    let (p, c, f) = and_then-some (cut v) _ d.opened in
    let (e, _) = if_some (text_eq p.1 (k.sign p.0)) _ f in
    (p.0, cut_sound v c ∙ ap (λ s. p.0 ++ dot ∷ s) ((text_eq_iff p.1 (k.sign p.0)).0 e))

epoch_for-revoke_to :
    (k : Codec) (m : Manager) (email : Text) (epoch : ℕ)
    → epoch_for k (revoke_to k m email epoch) email ≡ epoch
unfolding epoch_for revoke_to
epoch_for-revoke_to k m email epoch =
    ap or_zero (lookup-insert (normalise k email) (normalise k email) epoch m.epochs)
    ∙ rw (text_eq_refl (normalise k email)) refl

is_refused-epoch :
    (k : Codec) (m : Manager) (now : ℕ) (p : Payload)
    → p.ep < epoch_for k m p.user.email
    → is_refused k m now p ≡ true
unfolding is_refused
is_refused-epoch k m now p h = ground arith

-- For a faithful codec: a cookie that was issued to a person is refused, whenever it is presented,
-- once the person's epoch is raised above the one at its issue.
pub decode-revoke_to :
    (k : Codec)
    → IsCodec k
    → (m : Manager) (now : ℕ) (u : User) (iat : ℕ) {v : Text} (epoch later : ℕ) (writes : Bool)
    → issue k m now u iat ≡ some v
    → epoch_for k m u.email < epoch
    → decode k (revoke_to k m u.email epoch) later writes (some v) ≡ none
unfolding decode answer
decode-revoke_to k w m now u iat {v} epoch later writes i lt =
    let o = open_cookie-issue k w m now u iat i in
    let m' = revoke_to k m u.email epoch in
    let r =
      is_refused-epoch k m' later (payload_at k m now u iat)
        (omega (arith, epoch_for-revoke_to k m u.email epoch)) in
    ap (λ c. and_then c (answer k m' later writes)) o ∙ rw r refl

-- The value that the browser holds after a visit.
abbrev pub kept_value : Text → Option (User × Option Text) → Text
kept_value v none = v
kept_value v (some (u, none)) = v
kept_value v (some (u, some v')) = v'

-- Visits with their times, and the epochs that the manager holds at each.
unfoldable pub browse : Codec → Manager → Text → List (ℕ × Map ℕ) → Text
browse k m v [] = v
browse k m v ((now, epochs) ∷ visits) =
    browse k m (kept_value v (decode k (record m { epochs = epochs }) now true (some v))) visits

-- The value carries a session of `u` that began at `iat`.
record Carries (k : Codec) (u : User) (iat : ℕ) (v : Text) : Type 0 where
  exp : ℕ
  ep : ℕ
  opened : open_cookie k v ≡ some (record { user = u; exp = exp; iat = iat; ep = ep })

kept_value-Carries :
    (k : Codec) (u : User) (iat : ℕ) (v : Text) (r : Option Text)
    → Carries k u iat v
    → ((v' : Text) → r ≡ some v' → Carries k u iat v')
    → Carries k u iat (kept_value v (some (u, r)))
kept_value-Carries k u iat v none c h = c
kept_value-Carries k u iat v (some v') c h = h v' refl

answer-Carries :
    (k : Codec)
    → IsCodec k
    → (m : Manager) (now : ℕ) (u : User) (iat exp ep : ℕ) (v : Text) → Carries k u iat v
    → Carries k u iat
        (kept_value v (answer k m now true (record { user = u; exp = exp; iat = iat; ep = ep })))
unfolding answer
answer-Carries k w m now u iat exp ep v c =
    let p : Payload = record { user = u; exp = exp; iat = iat; ep = ep } in
    elim (Bool-cases (is_refused k m now p)) [
      | inl e ↦ rw e c
      | inr e ↦ rw e (
          kept_value-Carries k u iat v _ c (λ v' h.
            let (_, i) = if_some (true && renews m now p) (issue k m now u iat) h in
            record {
              exp = unix (now + m.ttl);
              ep = epoch_for k m u.email;
              opened = open_cookie-issue k w m now u iat i;
            }))
    ]

browse-Carries :
    (k : Codec)
    → IsCodec k
    → (m : Manager) (u : User) (iat : ℕ) (visits : List (ℕ × Map ℕ)) (v : Text) → Carries k u iat v
    → Carries k u iat (browse k m v visits)
unfolding browse decode
browse-Carries k w m u iat [] v c = c
browse-Carries k w m u iat ((now, epochs) ∷ visits) v c = browse-Carries k w m u iat visits _ (
    subst
      (λ o.
        Carries k u iat
          (kept_value v (and_then o (answer k (record m { epochs = epochs }) now true))))
      (sym c.opened) (answer-Carries k w (record m { epochs = epochs }) now u iat c.exp c.ep v c))

fresh-ceiling :
    (k : Codec) (m : Manager) (now : ℕ) (p : Payload)
    → p.iat ≢ 0
    → ceiling m p.user ≤ max_duration
    → is_refused k m now p ≡ false
    → now < from_unix p.iat + ceiling m p.user
unfolding is_refused
fresh-ceiling k m now p z small h = ground arith

-- For a faithful codec: a session that begins at least a second after the epoch, is renewed on any
-- visits under any epochs, and is let in at `now`, is let in as the user that it began with, before
-- the second of its start plus the ceiling: the ttl for an administrator and the maximal age for
-- others, where these are durations.
pub session_ends :
    (k : Codec)
    → IsCodec k
    → (m : Manager) (start : ℕ) (u : User) {v : Text} (visits : List (ℕ × Map ℕ)) (now : ℕ)
      (epochs : Map ℕ) (writes : Bool) {u' : User} {out : Option Text}
    → begin k m start u ≡ some v
    → unix start ≢ 0
    → ceiling m u ≤ max_duration
    → decode k (record m { epochs = epochs }) now writes (some (browse k m v visits))
      ≡ some (u', out)
    → (u' ≡ u) × (now < from_unix (unix start) + ceiling m u)
unfolding begin ceiling
session_ends k w m start u {v} visits now epochs writes {u'} b z small h =
    let m' : Manager = record m { epochs = epochs } in
    let began : Carries k u (unix start) v = record {
      exp = unix (start + m.ttl);
      ep = epoch_for k m u.email;
      opened = open_cookie-issue k w m start u (unix start) b;
    } in
    let c = browse-Carries k w m u (unix start) visits v began in
    let d = decode-Admits k m' now writes (browse k m v visits) h in
    let same : some (record { user = u; exp = c.exp; iat = unix start; ep = c.ep })
        ≡ some d.payload =
      sym c.opened ∙ d.opened in
    let p : record { user = u; exp = c.exp; iat = unix start; ep = c.ep } ≡ d.payload = cc same in
    (
      sym (ap (λ q. q.user) p ∙ d.user),
      fresh-ceiling k m' now (record { user = u; exp = c.exp; iat = unix start; ep = c.ep }) z small
          (ap (is_refused k m' now) p ∙ d.fresh),
    )

-- The payload of a new session is not refused before its expiry.
begun-fresh :
    (k : Codec) (m : Manager) (start : ℕ) (u : User) (now : ℕ)
    → m.ttl ≡ 12 * hour
    → m.max_age ≡ 7 * day_length
    → is_empty u.email ≡ false
    → unix now < unix (start + m.ttl)
    → is_refused k m now (payload_at k m start u (unix start)) ≡ false
unfolding is_refused ceiling
begun-fresh k m start u now t a e h = ground arith

-- For a faithful codec and the settings of New: a session that begins with an e-mail address is let
-- in as its user at any time up to the second of its expiry, twelve hours after its start, while the
-- epochs stay as they are.
pub begin-decode :
    (k : Codec)
    → IsCodec k
    → (m : Manager) (start : ℕ) (u : User) {v : Text} (now : ℕ) (writes : Bool) → m.ttl ≡ 12 * hour
    → m.max_age ≡ 7 * day_length
    → is_empty u.email ≡ false
    → begin k m start u ≡ some v
    → unix now < unix (start + m.ttl)
    → (out : Option Text) × (decode k m now writes (some v) ≡ some (u, out))
unfolding begin decode answer
begin-decode k w m start u now writes t a e b h =
    let o = open_cookie-issue k w m start u (unix start) b in
    (
      if writes && renews m now (payload_at k m start u (unix start))
          then issue k m now u (unix start)
          else none,
      ap (λ c. and_then c (answer k m now writes)) o
          ∙ rw (begun-fresh k m start u now t a e h) refl,
    )
