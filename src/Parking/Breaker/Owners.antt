-- ===== src/Parking/Breaker/Owners.antt =====
-- One account's trouble is not the fleet's: the tally counts owners, each once.
use pstonn.Prelude.{
  ℕ, ◌≤◌, ◌≡◌, ◌∙◌, true, false, List, [], ◌∷◌, Text, Distinct, Only, length-Only, delete,
  insert-Distinct, delete-Distinct, keep_values-Distinct, lookup-insert, lookup-delete-none,
  lookup-keep_values-none, length, arith, All,
}
use pstonn.Parking.Breaker.{
  Breaker, BreakerPermit, allow_locked, blocked_locked, tally, on_pushback_locked,
  on_success_locked,
}
use pstonn.Parking.Breaker.Permits.{Call, allows, pushes, succeeds, step, run, trips}

tally-Distinct :
    (b : Breaker) (now : ℕ) (owner : Text) → Distinct b.recent → Distinct (tally b now owner)
unfolding tally
tally-Distinct b now owner d = keep_values-Distinct _ _ (insert-Distinct owner now b.recent d)

tally-Only :
    (b : Breaker) (now : ℕ) (owner : Text) → Only owner b.recent → Only owner (tally b now owner)
unfolding tally
tally-Only b now owner o j ne =
    lookup-keep_values-none j _ _ (lookup-insert j owner now b.recent ∙ rw ne (o j ne))

-- Every call keeps one entry for each owner in the tally, so that its length counts owners.
pub step-Distinct : (b : Breaker) (c : Call) → Distinct b.recent → Distinct (step b c).recent
unfolding step allow_locked on_pushback_locked on_success_locked
step-Distinct b (allows now) d = ground arith
step-Distinct b (pushes now owner retry_after) d = ground (arith, tally-Distinct b now owner d)
step-Distinct b (succeeds owner p) d = ground (arith, delete-Distinct owner b.recent d)

-- The call is made for `owner`.
abbrev pub IsFor : Text → Call → Type 0
IsFor owner (allows now) = Unit
IsFor owner (pushes now who retry_after) = who ≡ owner
IsFor owner (succeeds who p) = who ≡ owner

-- A closed circuit that has only heard of one owner.
pub record Alone (owner : Text) (b : Breaker) : Type 0 where
  pub closed : b.open_until ≡ 0
  pub two : 2 ≤ b.threshold
  pub distinct : Distinct b.recent
  pub only : Only owner b.recent

tally-short :
    (b : Breaker) (now : ℕ) (owner : Text) → Alone owner b → length (tally b now owner) ≤ 1
tally-short b now owner a =
    length-Only owner _ (tally-Distinct b now owner a.distinct) (tally-Only b now owner a.only)

no_trip : (b : Breaker) (now : ℕ) (owner : Text) → Alone owner b → trips b now owner ≡ false
unfolding blocked_locked
no_trip b now owner a = ground (arith, tally-short b now owner a)

pub pushes-Alone :
    (b : Breaker) (now : ℕ) (owner : Text) (retry_after : ℕ)
    → Alone owner b
    → Alone owner (on_pushback_locked b now owner retry_after).0
unfolding on_pushback_locked
pushes-Alone b now owner retry_after a = rw (no_trip b now owner a) (record {
  closed = a.closed;
  two = a.two;
  distinct = tally-Distinct b now owner a.distinct;
  only = tally-Only b now owner a.only;
})

-- Without one entry the tally still knows no other owner.
deleted-Alone :
    (owner who : Text) (b : Breaker)
    → Alone owner b
    → Alone owner (record b { recent = delete who b.recent })
deleted-Alone owner who b a = record {
  closed = a.closed;
  two = a.two;
  distinct = delete-Distinct who b.recent a.distinct;
  only = λ j ne. lookup-delete-none j who b.recent (a.only j ne);
}

closed-on_success :
    (b : Breaker) (who : Text) (p : BreakerPermit)
    → b.open_until ≡ 0
    → (on_success_locked b who p).0 ≡ record b { recent = delete who b.recent }
unfolding on_success_locked
closed-on_success b who p h = ground arith

pub step-Alone :
    (owner : Text) (b : Breaker) (c : Call) → IsFor owner c → Alone owner b → Alone owner (step b c)
unfolding step allow_locked
step-Alone owner b (allows now) f a = ground arith
step-Alone owner b (pushes now who retry_after) f a = rw f (pushes-Alone b now owner retry_after a)
step-Alone owner b (succeeds who p) f a =
    rw (closed-on_success b who p a.closed) (deleted-Alone owner who b a)

-- However often one owner is pushed back, a closed circuit that needs two owners or more, and has
-- heard of no other owner, still admits everyone.
pub one_owner_never_trips :
    (owner : Text) (b : Breaker) (cs : List Call) (now : ℕ)
    → Alone owner b
    → All (IsFor owner) cs
    → (allow_locked (run b cs) now).1.ok ≡ true
unfolding run
one_owner_never_trips owner b [] now a f = unfold allow_locked in ground arith
one_owner_never_trips owner b (c ∷ cs) now a f =
    one_owner_never_trips owner (step b c) cs now (step-Alone owner b c f.0 a) f.1
