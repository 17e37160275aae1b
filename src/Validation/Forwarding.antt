-- ===== src/Validation/Forwarding.antt =====
-- src/validation/validation-commandlist.cpp: what reaches the wrapped command list follows the
-- protocol, one operation at a time.
use cutie_rhi.Base.{ℕ, Bool, true, false, ◌&&◌, List, [], ◌∷◌, some, All, ◌≡◌, refl}
use cutie_rhi.Validation.{Operation, Call, Fault, Wrapper, Session}
use cutie_rhi.Validation.Guards.{error, forward, guarded, report, reported, is_opened}
use cutie_rhi.Validation.Protocol.{
  View, start_view, is_graphics, is_compute, is_meshlet, is_rays, after_call, allowed,
  allowed_operation, follow, follow-append,
}

-- The flags of the wrapper say what the calls amount to.
pub record Matches (v : View) (w : Wrapper) : Type 0 where
  pub recording_eq : v.recording ≡ is_opened w.state
  pub graphics_eq : v.fresh && is_graphics v.bound ≡ w.graphics_state_set
  pub compute_eq : v.fresh && is_compute v.bound ≡ w.compute_state_set
  pub meshlet_eq : v.fresh && is_meshlet v.bound ≡ w.meshlet_state_set
  pub rays_eq : is_rays v.bound ≡ w.ray_tracing_state_set
  pub current_graphics_eq : v.graphics ≡ w.current_graphics_state
  pub current_compute_eq : v.compute ≡ w.current_compute_state
  pub current_meshlet_eq : v.meshlet ≡ w.current_meshlet_state
  pub size_eq : v.size ≡ w.pipeline_push_constant_size
  pub pushed_eq : v.pushed ≡ w.push_constants_set

-- The calls so far follow the protocol, to a state that the wrapper's flags describe.
abbrev pub InStep : Session → Type 0
InStep s = (v : View) × (follow start_view s.calls ≡ some v) × Matches v s.wrapper

pub guarded_cases {ℓ} :
    (P : Session → Type ℓ) (checks : List (Bool × Fault)) (rest : Session → Session) (s : Session)
    → ((f : Fault) → P (error f s))
    → (All (λ c. c.0 ≡ true) checks → P (rest s))
    → P (guarded checks rest s)
unfolding guarded
guarded_cases P [] rest s f g = g tt
guarded_cases P ((true, m) ∷ checks) rest s f g = guarded_cases P checks rest s f (λ h. g (refl, h))
guarded_cases P ((false, m) ∷ checks) rest s f g = f m

pub report_inv {ℓ} :
    (P : Session → Type ℓ) (fs : List Fault) (s : Session)
    → ((f : Fault) (t : Session) → P t → P (error f t))
    → P s
    → P (report fs s)
unfolding report
report_inv P [] s f p = p
report_inv P (m ∷ fs) s f p = report_inv P fs (error m s) f (f m s p)

pub reported_cases {ℓ} :
    (P : Session → Type ℓ) (fs : List Fault) (rest : Session → Session) (s : Session)
    → ((f : Fault) (t : Session) → P t → P (error f t))
    → P s
    → P (rest s)
    → P (reported fs rest s)
unfolding reported
reported_cases P [] rest s f p r = r
reported_cases P (m ∷ fs) rest s f p r = report_inv P (m ∷ fs) s f p

pub error-InStep : (f : Fault) (s : Session) → InStep s → InStep (error f s)
unfolding error
error-InStep f s i = i

-- An allowed call, after which the flags agree again.
pub forward-InStep :
    (c : Call) (s t : Session)
    → t.calls ≡ s.calls
    → (i : InStep s) → allowed c i.0 ≡ true
    → Matches (after_call c i.0) t.wrapper
    → InStep (forward c t)
unfolding forward
forward-InStep c s t e i a m =
    (after_call c i.0, rw e (follow-append start_view i.0 s.calls c i.1 a), m)

-- The operations behind their checks.
pub guarded-InStep :
    (checks : List (Bool × Fault)) (rest : Session → Session) (s : Session)
    → InStep s
    → (All (λ c. c.0 ≡ true) checks → InStep (rest s))
    → InStep (guarded checks rest s)
guarded-InStep checks rest s i g = guarded_cases InStep checks rest s (λ f. error-InStep f s i) g

pub operation-InStep :
    (checks : List (Bool × Fault)) (op : Operation) (args : ℕ) (s : Session)
    → InStep s
    → ((v : View)
        → Matches v s.wrapper
        → All (λ c. c.0 ≡ true) checks
        → allowed_operation op v ≡ true)
    → InStep (guarded checks (forward (Call.operation_call op args)) s)
unfolding allowed after_call
operation-InStep checks op args s i a =
    guarded-InStep checks (forward (Call.operation_call op args)) s i
      (λ h. forward-InStep (Call.operation_call op args) s s refl i (a i.0 i.2 h) i.2)
