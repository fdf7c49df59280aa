-- ===== src/Scheduler/Recover/Retire.antt =====
-- Which stored sessions an attempt removes, and who is told.
use pstonn.Prelude.{
  ℕ, ◌≡◌, Bool, true, false, not, ◌&&◌, ◌||◌, Option, none, some, ◌∷◌, [], List, find,
  if◌then◌else◌, find-drop_if, arith,
}
use pstonn.Scheduler.{Scheduler, SessionKey, same_session, session_key, Notice}
use pstonn.Scheduler.Recover.{
  LoginLink, has, is_superseded, is_hopeless, is_generation, delete_tenant_session_if_gen, Attempt,
  Recovery, retire, after_login, recover_or_retire,
}

-- The household is asked to link the session again.
abbrev pub is_relink : Notice → Bool
is_relink (Notice.alert_relink k) = true
is_relink _ = false

abbrev pub relink_sent : List Notice → Bool
relink_sent [] = false
relink_sent (n ∷ ns) = is_relink n || relink_sent ns

-- The council answered that the saved password is no use, and did not say first that the session
-- was replaced.
abbrev pub refuses_login : Option (List LoginLink) → Bool
refuses_login none = false
refuses_login (some err) = not (has is_superseded err) && has is_hopeless err

-- The rows after the attempt, and whether the household was told, as the conditions say.
record IsRetired (k : SessionKey) (gen : ℕ) (a : Attempt) (due : Bool) (r : Recovery) : Type 0 where
  sent_iff :
      relink_sent r.notices ≡ (due && (not a.delete_fails && is_generation gen (find k a.after)))
  rows :
      (j : SessionKey)
      → find j r.sessions
        ≡ (if relink_sent r.notices && same_session k j then none else find j a.after)

retire-IsRetired :
    (s : Scheduler) (k : SessionKey) (gen : ℕ) (a : Attempt)
    → IsRetired k gen a true (retire s k gen a)
unfolding retire delete_tenant_session_if_gen
retire-IsRetired s k gen a = record {
  sent_iff = ground arith;
  rows = λ j. ground (arith, find-drop_if j (same_session k) a.after);
}

after_login-IsRetired :
    (s : Scheduler) (now : ℕ) (k : SessionKey) (gen : ℕ) (counts : Bool) (a : Attempt)
    → IsRetired k gen a (refuses_login a.login) (after_login s now k gen counts a)
unfolding after_login
after_login-IsRetired s now k gen counts a =
    let w = retire-IsRetired s k gen a in
    record { sent_iff = ground (arith, w.sent_iff); rows = λ j. ground (arith, w.rows j) }

-- What one attempt does to the stored sessions. It removes the session of its own key, and no other,
-- exactly if it asks the household to link again; and it asks exactly if the session could be read and had
-- the generation of the entry, the saved password is missing or was rejected and the session was not
-- found to be replaced, and the row still has that generation when it is deleted, which succeeds.
pub recover_or_retire-sessions :
    (s : Scheduler) (now : ℕ) (k j : SessionKey) (gen : ℕ) (counts : Bool) (a : Attempt)
    → let r = recover_or_retire s now k gen counts a in
      (find j r.sessions
        ≡ (if relink_sent r.notices && same_session k j then none else find j a.after))
      × (relink_sent r.notices ≡ (
          (not a.read_fails && (is_generation gen (find k a.before) && refuses_login a.login))
          && (not a.delete_fails && is_generation gen (find k a.after))))
unfolding recover_or_retire
recover_or_retire-sessions s now k j gen counts a =
    let w = after_login-IsRetired s now k gen counts a in
    (ground (arith, w.rows j), ground (arith, w.sent_iff))
