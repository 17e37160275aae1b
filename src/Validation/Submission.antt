-- ===== src/Validation/Submission.antt =====
-- src/validation/validation-device.cpp: what `executeCommandLists` accepts, and what it leaves
-- behind when it refuses.
use cutie_rhi.Base.{
  ℕ, ◌+◌, ◌<◌, Bool, true, false, List, [], ◌∷◌, Option, none, some, All, ◌==◌, ==_iff, ◌≡◌, ◌≢◌,
  refl, sym, ap, ◌∙◌, subst, arith, if◌then◌else◌, length, set, zero, suc, get_or-set_self,
  get_or-set_ne,
}
use mathlib.Core.Option.{some-injective}
use native.Mathlib.Decide.{ℕ_discrete}
use cutie_rhi.Versioning.{CommandQueue, queue_index}
use cutie_rhi.Validation.{CommandListState, Wrapper}
use cutie_rhi.Validation.Lifecycle.{execute_from, require_execute_state}
use cutie_rhi.Validation.Execute.{ExecuteFault, list_at, executed, execute_command_lists}

abbrev pub is_closed : CommandListState → Bool
is_closed CommandListState.initial = false
is_closed CommandListState.opened = false
is_closed CommandListState.closed = true

abbrev pub is_initial : CommandListState → Bool
is_initial CommandListState.initial = true
is_initial CommandListState.opened = false
is_initial CommandListState.closed = false

-- The list is closed, for the queue.
abbrev pub Ready : CommandQueue → List Wrapper → Option ℕ → Type 0
Ready queue lists none = ⊥
Ready queue lists (some k) =
    (is_closed (list_at lists k).state ≡ true)
    × (queue_index (list_at lists k).queue_type ≡ queue_index queue)

-- The list is back in its initial state.
abbrev pub Reset : List Wrapper → Option ℕ → Type 0
Reset lists none = ⊥
Reset lists (some k) = is_initial (list_at lists k).state ≡ true

pub executed-accepts :
    (w : Wrapper)
    → (executed w).0 ≡ true
    → (is_closed w.state ≡ true) × (is_initial (executed w).1.wrapper.state ≡ true)
unfolding require_execute_state
executed-accepts w e = by_state w.state e
  where
    by_state :
        (c : CommandListState)
        → (execute_from c (record {
          wrapper = w;
          num_open_immediate_command_lists = 0;
          calls = [];
          faults = [];
        })).0
          ≡ true
        → (is_closed c ≡ true)
          × (is_initial
                (execute_from c (record {
                  wrapper = w;
                  num_open_immediate_command_lists = 0;
                  calls = [];
                  faults = [];
                })).1.wrapper.state
              ≡ true)
    by_state CommandListState.initial h = cc
    by_state CommandListState.opened h = cc
    by_state CommandListState.closed h = (refl, refl)

not_both : (c : CommandListState) → is_closed c ≡ true → ¬ (is_initial c ≡ true)
not_both CommandListState.initial h g = cc
not_both CommandListState.opened h g = cc
not_both CommandListState.closed h g = cc

-- A number that names no list is not that of a closed one.
list_at-lt :
    (lists : List Wrapper) (k : ℕ) → is_closed (list_at lists k).state ≡ true → k < length lists
list_at-lt [] k h = cc
list_at-lt (w ∷ lists) zero h = omega arith
list_at-lt (w ∷ lists) (suc k) h = omega (arith, list_at-lt lists k h)

pub All-map {ℓ κ} :
    {A : Type ℓ} (P Q : A → Type κ) (xs : List A) → ((x : A) → P x → Q x) → All P xs → All Q xs
All-map P Q [] f h = tt
All-map P Q (x ∷ xs) f h = (f x h.0, All-map P Q xs f h.1)

-- One round of the loop that finds no fault.
pub round_cases :
    (b c : Bool) (f g : ExecuteFault) (after : Option ExecuteFault × List Wrapper)
    (lists : List Wrapper)
    → (if b then (if c then after else (some f, lists)) else (some g, lists)).0 ≡ none
    → (b ≡ true)
      × (c ≡ true)
      × (after.0 ≡ none)
      × ((if b then (if c then after else (some f, lists)) else (some g, lists)) ≡ after)
round_cases true true f g after lists h = (refl, refl, h, refl)
round_cases true false f g after lists h = cc
round_cases false c f g after lists h = cc

-- Lists that are in their initial state stay in it.
pub Stays : List Wrapper → List Wrapper → Type 0
Stays before after =
    (j : ℕ) → is_initial (list_at before j).state ≡ true → is_initial (list_at after j).state ≡ true

module _ (queue : CommandQueue) (k : ℕ) (lists : List Wrapper) (w : Wrapper) where
  abbrev put_back : List Wrapper
  put_back = set lists k w

  module _ (ready : is_closed (list_at lists k).state ≡ true)
      (back : is_initial w.state ≡ true) where
    put_back_self : is_initial (list_at put_back k).state ≡ true
    put_back_self =
        ap (λ (x : Wrapper). is_initial x.state)
          (get_or-set_self lists k w _ (list_at-lt lists k ready))
        ∙ back

    put_back-other : (j : ℕ) → k ≢ j → list_at put_back j ≡ list_at lists j
    put_back-other j h = get_or-set_ne lists k j w _ h

    put_back-Stays : Stays lists put_back
    unfolding Stays
    put_back-Stays j i = elim (ℕ_discrete k j) [
      | yes e ↦
          absurd
            (not_both _ ready (subst (λ x. is_initial (list_at lists x).state ≡ true) (sym e) i))
      | no h ↦ ap (λ (x : Wrapper). is_initial x.state) (put_back-other j h) ∙ i
    ]

    -- What is ready afterwards was ready before, and is another list.
    pub put_back-Ready :
        (p : Option ℕ) → Ready queue put_back p → Ready queue lists p × (p ≢ some k)
    put_back-Ready none r = absurd r
    put_back-Ready (some j) r = elim (ℕ_discrete k j) [
      | yes e ↦ absurd (
          not_both _ (subst (λ x. is_closed (list_at put_back x).state ≡ true) (sym e) r.0)
            put_back_self)
      | no h ↦ (rw (← put_back-other j h) r, λ e. h (sym (some-injective j k e)))
    ]

-- What an accepted submission says of its lists, before and after.
abbrev pub Accepted : CommandQueue → List (Option ℕ) → List Wrapper → List Wrapper → Type 0
Accepted queue ps lists after =
    All (Ready queue lists) ps × All (Reset after) ps × Stays lists after

pub execute-Accepted :
    (i : ℕ) (queue : CommandQueue) (ps : List (Option ℕ)) (lists : List Wrapper)
    → (execute_command_lists i queue ps lists).0 ≡ none
    → Accepted queue ps lists (execute_command_lists i queue ps lists).1
unfolding execute_command_lists Stays
execute-Accepted i queue [] lists h = (tt, tt, λ j e. e)
execute-Accepted i queue (none ∷ ps) lists h = cc
execute-Accepted i queue (some k ∷ ps) lists h =
    accepted
      (execute-Accepted (i + 1) queue ps (set lists k (executed (list_at lists k)).1.wrapper))
      (round_cases _ _ _ _ _ lists h)
  where
    w : Wrapper
    w = list_at lists k

    lists' : List Wrapper
    lists' = set lists k (executed w).1.wrapper

    after : Option ExecuteFault × List Wrapper
    after = execute_command_lists (i + 1) queue ps lists'

    result : Option ExecuteFault × List Wrapper
    result =
        if queue_index w.queue_type == queue_index queue
        then (if (executed w).0 then after else (some (ExecuteFault.not_executable i), lists))
        else (some (ExecuteFault.wrong_queue i), lists)

    accepted :
        (after.0 ≡ none → Accepted queue ps lists' after.1)
        → ((queue_index w.queue_type == queue_index queue) ≡ true)
          × ((executed w).0 ≡ true)
          × (after.0 ≡ none)
          × (result ≡ after)
        → Accepted queue (some k ∷ ps) lists result.1
    accepted ih r =
        let e : (is_closed w.state ≡ true) × (is_initial (executed w).1.wrapper.state ≡ true) =
          executed-accepts w r.1 in
        let t : Accepted queue ps lists' after.1 = ih r.2 in
        subst (λ (x : Option ExecuteFault × List Wrapper). Accepted queue (some k ∷ ps) lists x.1)
          (sym r.3)
          (
            (
              (e.0, (==_iff _ _).0 r.0),
              All-map (Ready queue lists') (Ready queue lists) ps
                  (λ p q. (put_back-Ready queue k lists _ e.0 e.1 p q).0) t.0,
            ),
            (t.2 k (put_back_self queue k lists _ e.0 e.1), t.1),
            (λ j q. t.2 j (put_back-Stays queue k lists _ e.0 e.1 j q)),
          )
