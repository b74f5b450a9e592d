-- ===== src/Runtime.antt =====
-- pkg/runtime: the contract with the host runtime. Its answers are the environment's: functions of
-- all the calls made so far, the latest first, so that any behaviour over time is one of them.
use macvz.Prelude.{
  Text, codes_key, text_key, number_key, ℕ, String, ◌≡◌, refl, ◌⊎◌, inl, inr, Bool, true, false,
  Option, none, some, List,
}

pub data RtError : Type 0 where
  not_ready not_found already_exists not_running incompatible_arch : RtError
  other_error : String → RtError

-- Error()
abbrev pub error_text : RtError → String
error_text not_ready = "runtime: not ready"
error_text not_found = "runtime: workload not found"
error_text already_exists = "runtime: workload already exists"
error_text not_running = "runtime: workload not running"
error_text incompatible_arch = "runtime: image architecture incompatible"
error_text (other_error s) = s

-- !errors.Is(err, ErrNotFound), of an error that is not nil
abbrev pub is_failure : Option RtError → Bool
is_failure none = false
is_failure (some not_found) = false
is_failure (some _) = true

pub data Phase : Type 0 where
  unknown created running stopped failed : Phase

pub record Status : Type 0 where
  pub id : Text
  pub phase : Phase
  pub exit_code : ℕ
  pub message : String
  pub ip : String

-- types.ContainerSpec: the fields that the lifecycle reads.
pub record ContainerSpec : Type 0 where
  pub name : Text
  pub image : String

-- The calls of a host, and the go statement that launches restartWorkload.
pub data Call : Type 0 where
  call_list : Call
  call_status : Text → Call
  call_pull : String → Call
  call_create : ContainerSpec → Call
  call_start : Text → Call
  call_stop : Text → ℕ → Call
  call_destroy : Text → Call
  call_attach : String → String → String → Call
  call_detach : String → Call
  call_flush : Call
  go_restart : String → Text → ℕ → Call

abbrev pub Trace : Type 0
Trace = List Call

pub data Answer (A : Type 0) : Type 0 where
  answer : A → Answer A
  failure : RtError → Answer A

pub record Runtime : Type 0 where
  pub list : Trace → Answer (List Status)
  pub status : Trace → Text → Answer Status
  pub pull : Trace → String → Option RtError
  pub create : Trace → ContainerSpec → Answer Text
  pub start : Trace → Text → Option RtError
  pub stop : Trace → Text → Option RtError
  pub destroy : Trace → Text → Option RtError

pub Answer-cases :
    {A : Type 0} (r : Answer A) → ((a : A) × (r ≡ answer a)) ⊎ ((e : RtError) × (r ≡ failure e))
Answer-cases (answer a) = inl (a, refl)
Answer-cases (failure e) = inr (e, refl)
