-- ===== src/Events/Masks.antt =====
-- radevents.c: which events are caught after events are added and removed.
use Prim.Native.Nat.{bit_and, bit_or}
use radlib.Base.{
  ℕ, ◌<◌, ◌≡◌, refl, sym, ap, ◌∙◌, Bool, false, ◌==◌, ◌&&◌, ◌||◌, not, ◌⊎◌, List, [], ◌∷◌, ◌++◌,
  Bool-cases, inl, inr, eq_of_==, ne_of_==, ◌≢◌,
}
use radlib.Base.Bits.{bit, bit-bit_and, bit-bit_or, bit-complement, bit-zero, power_of_two}
use radlib.Base.Lists.{All}
use radlib.SysDefs.{ok}
use radlib.Events.{EventsId, Call, callback, complement, add, remove, process}

pub data MaskOp : Type 0 where
  add_events : ℕ → MaskOp
  remove_events : ℕ → MaskOp

abbrev pub IsUint : MaskOp → Type 0
IsUint (add_events e) = e < power_of_two 32
IsUint (remove_events e) = e < power_of_two 32

unfoldable pub run : List MaskOp → EventsId → EventsId
run [] id = id
run (add_events e ∷ os) id = run os (add e id).0
run (remove_events e ∷ os) id = run os (remove e id).0

-- The set of the events that are caught, event by event: the last of the calls that names an event
-- decides.
abbrev pub caught : List MaskOp → (ℕ → Bool) → ℕ → Bool
caught [] s i = s i
caught (add_events e ∷ os) s i = caught os (λ j. s j || bit j e) i
caught (remove_events e ∷ os) s i = caught os (λ j. s j && not (bit j e)) i

-- The set changes only by what is said of the event.
caught-agree :
    (os : List MaskOp) (s t : ℕ → Bool) (i : ℕ) → s i ≡ t i → caught os s i ≡ caught os t i
caught-agree [] s t i h = h
caught-agree (add_events e ∷ os) s t i h =
    caught-agree os (λ j. s j || bit j e) (λ j. t j || bit j e) i
      (ap (λ (b : Bool). b || bit i e) h)
caught-agree (remove_events e ∷ os) s t i h =
    caught-agree os (λ j. s j && not (bit j e)) (λ j. t j && not (bit j e)) i
      (ap (λ (b : Bool). b && not (bit i e)) h)

run-caught :
    (os : List MaskOp) (id : EventsId) (i : ℕ)
    → i < 32
    → All IsUint os
    → bit i (run os id).mask ≡ caught os (λ j. bit j id.mask) i
unfolding run add remove
run-caught [] id i h u = refl
run-caught (add_events e ∷ os) id i h u =
    run-caught os (add e id).0 i h u.1
    ∙ caught-agree os (λ j. bit j (bit_or id.mask e)) (λ j. bit j id.mask || bit j e) i
        (bit-bit_or i id.mask e)
run-caught (remove_events e ∷ os) id i h u =
    run-caught os (remove e id).0 i h u.1
    ∙ caught-agree os (λ j. bit j (bit_and id.mask (complement e)))
        (λ j. bit j id.mask && not (bit j e)) i
        (bit-bit_and i id.mask (complement e)
          ∙ ap (λ (b : Bool). bit i id.mask && b) (bit-complement 32 i e h u.0))

run_same :
    (os : List MaskOp) (id : EventsId)
    → ((run os id).evt_processor ≡ id.evt_processor) × ((run os id).user_parm ≡ id.user_parm)
unfolding run add remove
run_same [] id = (refl, refl)
run_same (add_events e ∷ os) id = run_same os (add e id).0
run_same (remove_events e ∷ os) id = run_same os (remove e id).0

-- The events that are received and caught.
abbrev pub received : List MaskOp → EventsId → (rx i : ℕ) → Bool
received os id rx i = caught os (λ j. bit j id.mask) i && bit i rx

received_lem :
    (os : List MaskOp) (id : EventsId) (rx i : ℕ)
    → All IsUint os
    → i < 32
    → bit i (bit_and (run os id).mask rx) ≡ received os id rx i
received_lem os id rx i u h =
    bit-bit_and i (run os id).mask rx ∙ ap (λ (b : Bool). b && bit i rx) (run-caught os id i h u)

-- After any calls of radEventsAdd and radEventsRemove, radEventsProcess either calls the process's
-- callback once, with exactly those of the 32 events that are received and caught, and there is one;
-- or no received event is caught, and it calls nothing. An event is caught if the last call that
-- names it added it, or none names it and it was caught at first.
pub process-caught :
    (os : List MaskOp) (id : EventsId) (rx d : ℕ) (cs : List Call)
    → All IsUint os
    → ((process (run os id) rx d cs ≡ (cs, ok)) × ((i : ℕ) → i < 32 → received os id rx i ≡ false))
      ⊎ ((es : ℕ) × (process (run os id) rx d cs
            ≡ (cs ++ callback id.evt_processor es d id.user_parm ∷ [], ok))
          × (es ≢ 0)
          × ((i : ℕ) → i < 32 → bit i es ≡ received os id rx i))
unfolding process
process-caught os id rx d cs u =
    let es = bit_and (run os id).mask rx in
    elim (Bool-cases (es == 0)) [
      | inl y ↦ inl (
        rw y refl,
        λ i h. sym (received_lem os id rx i u h) ∙ ap (bit i) (eq_of_== es 0 y) ∙ bit-zero i,
      )
      | inr n ↦ inr (
        es,
        rw (n, (run_same os id).0, (run_same os id).1) refl,
        ne_of_== es 0 n,
        λ i h. received_lem os id rx i u h,
      )
    ]
