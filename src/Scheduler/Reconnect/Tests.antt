-- ===== src/Scheduler/Reconnect/Tests.antt =====
-- A queue of two entries, walked in either order.
use pstonn.Prelude.{◌≡◌, refl, sym, ◌∙◌, ap, true, false, some, List, [], ◌∷◌, codes, Memᴰ, text_eq}
use pstonn.Clock.{hour, minute}
use pstonn.Model.Best.{IsBest, best_from, challenge}
use pstonn.Model.Schedule.Order.{SameMembers}
use pstonn.Scheduler.{same_session, same_session_iff, ReconnectItem}
use pstonn.Scheduler.Reconnect.{Entry, earliest, is_earlier, text_ltb}
use pstonn.Scheduler.Reconnect.Order.{UniqueKeys, earliest-IsBest}

abbrev item : ReconnectItem
item = record { next = hour; queued_at = minute; gen = 7; attempts = 0; counts_churn = true }

abbrev first : Entry
first = (record { owner = codes "a"; tenant = codes "t" }, item)

abbrev second : Entry
second = (record { owner = codes "b"; tenant = codes "t" }, item)

abbrev queue : List Entry
queue = second ∷ first ∷ []

abbrev walk : List Entry
walk = first ∷ second ∷ []

distinct : same_session second.0 first.0 ≡ false
unfolding text_eq
distinct = refl

queue-UniqueKeys : UniqueKeys queue
queue-UniqueKeys x y (Memᴰ.head e) (Memᴰ.head f) h = e ∙ sym f
queue-UniqueKeys x y (Memᴰ.head e) (Memᴰ.tail (Memᴰ.head f)) h = absurd (
    cc (
      distinct,
      (same_session_iff second.0 first.0).1
          (sym (ap (λ (z : Entry). z.0) e) ∙ h ∙ ap (λ (z : Entry). z.0) f),
    ))
queue-UniqueKeys x y (Memᴰ.tail (Memᴰ.head e)) (Memᴰ.head f) h = absurd (
    cc (
      distinct,
      (same_session_iff second.0 first.0).1
          (sym (ap (λ (z : Entry). z.0) f) ∙ sym h ∙ ap (λ (z : Entry). z.0) e),
    ))
queue-UniqueKeys x y (Memᴰ.tail (Memᴰ.head e)) (Memᴰ.tail (Memᴰ.head f)) h = e ∙ sym f
queue-UniqueKeys x y (Memᴰ.tail (Memᴰ.tail i)) j h = elim i [ ]
queue-UniqueKeys x y i (Memᴰ.tail (Memᴰ.tail j)) h = elim j [ ]

swapped : (a b x : Entry) → Memᴰ x (a ∷ b ∷ []) → Memᴰ x (b ∷ a ∷ [])
swapped a b x (Memᴰ.head e) = Memᴰ.tail (Memᴰ.head e)
swapped a b x (Memᴰ.tail (Memᴰ.head e)) = Memᴰ.head e
swapped a b x (Memᴰ.tail (Memᴰ.tail i)) = elim i [ ]

queue-SameMembers : SameMembers queue walk
queue-SameMembers = record { left = swapped second first; right = swapped first second }

first_is_next : earliest queue ≡ some first
unfolding earliest best_from challenge is_earlier text_ltb text_eq
first_is_next = refl

earliest-IsBest_example : (earliest walk ≡ some first) × IsBest (λ _. true) is_earlier first queue
earliest-IsBest_example =
    earliest-IsBest queue walk first queue-UniqueKeys queue-SameMembers first_is_next
