-- ===== src/Session/Tests.antt =====
-- Sessions under a codec that keeps the laws: texts end in 0, with their runes moved up by one.
use pstonn.Prelude.{
  ℕ, zero, suc, ◌+◌, ◌-◌, ◌*◌, ◌<◌, ◌≡◌, ◌≢◌, refl, ap, ap₂, true, Option, none, some, List, [],
  ◌∷◌, Text, All, codes, length, lookup, text_eq, arith,
}
use pstonn.Clock.{second}
use pstonn.Session.{
  User, Payload, Codec, new_manager, unix, from_unix, dot, seal, issue, begin, revoke_to, epoch_for,
  decode, ceiling, cut, open_cookie, answer, is_refused, renews,
}
use pstonn.Session.Wire.{IsCodec}
use pstonn.Session.Expiry.{decode-revoke_to, browse, session_ends, begin-decode}

enc_text : Text → Text → Text
enc_text [] r = 0 ∷ r
enc_text (c ∷ s) r = suc c ∷ enc_text s r

dec_text : Text → Text × Text
dec_text [] = ([], [])
dec_text (zero ∷ r) = ([], r)
dec_text (suc c ∷ r) = let (s, rest) = dec_text r in (c ∷ s, rest)

dec_text-enc_text : (s r : Text) → dec_text (enc_text s r) ≡ (s, r)
unfolding dec_text enc_text
dec_text-enc_text [] r = refl
dec_text-enc_text (c ∷ s) r = rw (dec_text-enc_text s r) refl

enc_texts : List Text → Text
enc_texts [] = []
enc_texts (s ∷ ss) = enc_text s (enc_texts ss)

dec_texts : ℕ → Text → List Text
dec_texts zero r = []
dec_texts (suc n) r = let (s, rest) = dec_text r in s ∷ dec_texts n rest

dec_texts-enc_texts : (ss : List Text) → dec_texts (length ss) (enc_texts ss) ≡ ss
unfolding dec_texts enc_texts
dec_texts-enc_texts [] = refl
dec_texts-enc_texts (s ∷ ss) = rw (dec_text-enc_text s (enc_texts ss), dec_texts-enc_texts ss) refl

enc : Payload → Text
enc p =
    p.exp
    ∷ p.iat
    ∷ p.ep
    ∷ length p.user.groups
    ∷ enc_text p.user.email (enc_text p.user.name (enc_texts p.user.groups))

dec : Text → Option Payload
dec (exp ∷ iat ∷ ep ∷ n ∷ r) =
    let (email, r1) = dec_text r in
    let (name, r2) = dec_text r1 in
    some (record {
      user = record { email = email; name = name; groups = dec_texts n r2 };
      exp = exp;
      iat = iat;
      ep = ep;
    })
dec _ = none

dec-enc : (p : Payload) → dec (enc p) ≡ some p
unfolding dec enc
dec-enc p =
    rw
      (
        dec_text-enc_text p.user.email (enc_text p.user.name (enc_texts p.user.groups)),
        dec_text-enc_text p.user.name (enc_texts p.user.groups),
        dec_texts-enc_texts p.user.groups,
      )
      refl

raise : Text → Text
raise [] = []
raise (c ∷ s) = (c + 47) ∷ raise s

lower : Text → Text
lower [] = []
lower (c ∷ s) = (c - 47) ∷ lower s

lower-raise : (s : Text) → lower (raise s) ≡ s
unfolding lower raise
lower-raise [] = refl
lower-raise (c ∷ s) = ap₂ ◌∷◌ (omega arith) (lower-raise s)

raise_no_dot : (s : Text) → All (λ c. c ≢ dot) (raise s)
unfolding raise
raise_no_dot [] = tt
raise_no_dot (c ∷ s) = (omega arith, raise_no_dot s)

abbrev codec : Codec
codec = record {
  sign = λ a. length a ∷ [];
  to_base64 = raise;
  from_base64 = λ a. some (lower a);
  marshal = λ p. some (enc p);
  unmarshal = dec;
  to_lower = λ a. a;
  trim_space = λ a. a;
}

codec-IsCodec : IsCodec codec
codec-IsCodec = record {
  json = λ p. (enc p, refl, dec-enc p);
  base64 = λ b. ap some (lower-raise b);
  no_dot = raise_no_dot;
}

abbrev pa : User
pa = record { email = codes "pa@example.com"; name = codes "Pa"; groups = [] }

abbrev cookie : Text
cookie = seal codec (enc (record { user = pa; exp = 43_200 + 1_000; iat = 1_000; ep = 0 }))

begun : begin codec new_manager (1_000 * second) pa ≡ some cookie
unfolding begin issue new_manager epoch_for lookup
begun = refl

reissued : issue codec new_manager (1_000 * second) pa 1_000 ≡ some cookie
unfolding issue new_manager epoch_for lookup
reissued = refl

begin-decode_example :
    (out : Option Text) × (decode codec new_manager (2_000 * second) true (some cookie)
      ≡ some (pa, out))
begin-decode_example =
    begin-decode codec codec-IsCodec new_manager (1_000 * second) pa (2_000 * second) true
      (unfold new_manager in refl) (unfold new_manager in refl) refl begun
      (unfold new_manager in omega arith)

-- Let in an hour after the start, before the half of the twelve: the cookie stays as it is.
let_in :
    decode codec
      (record new_manager { epochs = [] })
      (4_600 * second)
      true
      (some (browse codec new_manager cookie ((2_000 * second, []) ∷ [])))
    ≡ some (pa, none)
unfolding decode browse new_manager answer is_refused renews ceiling epoch_for lookup open_cookie
    cut seal enc dec enc_text dec_text enc_texts dec_texts raise lower text_eq
let_in = refl

session_ends_example :
    (pa ≡ pa) × (4_600 * second < from_unix (unix (1_000 * second)) + ceiling new_manager pa)
session_ends_example =
    session_ends codec codec-IsCodec new_manager (1_000 * second) pa ((2_000 * second, []) ∷ [])
      (4_600 * second) [] true begun (omega arith)
      (unfold ceiling new_manager text_eq in omega arith) let_in

decode-revoke_to_example :
    decode codec (revoke_to codec new_manager pa.email 1) (2_000 * second) true (some cookie) ≡ none
decode-revoke_to_example =
    decode-revoke_to codec codec-IsCodec new_manager (1_000 * second) pa 1_000 1 (2_000 * second)
      true reissued (unfold epoch_for lookup new_manager in omega arith)
