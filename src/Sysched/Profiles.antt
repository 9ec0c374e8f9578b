-- ===== src/Sysched/Profiles.antt =====
-- The system calls of a pod, read off its seccomp profiles: pkg/sysched/sysched.go.
use plugins_improve.Prelude.{
  ℕ, ltb, ◌==◌, Bool, true, false, not, ◌&&◌, ◌||◌, Option, none, some, List, [], ◌∷◌, String,
  str_eq, elem, ◌≡◌, ◌↔◌, if◌then◌else◌,
}
use plugins_improve.Sysched.Paths.{parse_name_ns, contains_text}

-- `sets.Set[string]`.
pub record CallSets : Type 1 where
  pub S : Type 0
  pub empty : S
  pub of_list : List String → S
  pub union : S → S → S
  pub difference : S → S → S
  pub len : S → ℕ
  pub member : String → S → Bool
  pub member-empty : (c : String) → member c empty ≡ false
  pub member-of_list : (c : String) (l : List String) → member c (of_list l) ≡ elem c l
  pub member-union : (c : String) (s t : S) → member c (union s t) ≡ (member c s || member c t)
  pub member-difference :
      (c : String) (s t : S) → member c (difference s t) ≡ (member c s && not (member c t))
  pub len-member : (s : S) → (len s ≡ 0) ↔ ((c : String) → member c s ≡ false)

pub record SeccompProfile : Type 0 where
  pub kind : String
  pub localhost_profile : Option String

-- What the plugin reads of a pod. A security context without a profile is `none`, as none at all.
pub record Pod : Type 0 where
  pub name : String
  pub node_name : String
  pub phase : String
  pub host_ip : String
  pub profile : Option SeccompProfile
  pub container_profiles : List (Option SeccompProfile)
  pub annotations : List (String × String)

-- The API's profiles by namespace and name, as lists of actions with their calls; `none` is an
-- error. With it, the two actions that allow a call, and the profile of all system calls.
pub record Profiles : Type 0 where
  pub get : String → String → Option (List (String × List String))
  pub act_allow : String
  pub act_log : String
  pub default_profile_namespace : String
  pub default_profile_name : String

abbrev pub spo_annotation : String
spo_annotation = "seccomp.security.alpha.kubernetes.io"

module _ (sets : CallSets) (profiles : Profiles) where
  open sets use {S, empty, of_list, union, len}

  unfoldable pub merge_categories : List (String × List String) → S → S
  merge_categories [] syscalls = syscalls
  merge_categories ((action, names) ∷ rest) syscalls = merge_categories rest (
      if str_eq action profiles.act_allow || str_eq action profiles.act_log
      then union syscalls (of_list names)
      else syscalls)

  -- The set, and whether it was read without an error.
  unfoldable pub read_spo_profile_cr : String → String → S × Bool
  unfolding merge_categories
  read_spo_profile_cr name namespace =
      if str_eq name "" || str_eq namespace ""
      then (empty, true)
      else elim (profiles.get namespace name) [
        | none ↦ (empty, false)
        | some categories ↦ (merge_categories categories empty, true)
      ]

  abbrev pub union_nonempty : S → S → S
  union_nonempty r syscalls = if ltb 0 (len syscalls) then union r syscalls else r

  -- The block that the code has for the pod and for a container.
  unfoldable pub merge_profile : Option SeccompProfile → S → S
  unfolding read_spo_profile_cr
  merge_profile none r = r
  merge_profile (some profile) r =
      if not (str_eq profile.kind "Localhost") then r else elim profile.localhost_profile [
        | none ↦ r
        | some profile_path ↦
            let (ns, name) = parse_name_ns profile_path in
            if str_eq ns "" || str_eq name ""
            then r
            else union_nonempty r (read_spo_profile_cr name ns).0
      ]

  unfoldable pub merge_profiles : List (Option SeccompProfile) → S → S
  unfolding merge_profile
  merge_profiles [] r = r
  merge_profiles (c ∷ cs) r = merge_profiles cs (merge_profile c r)

  -- The loop over the annotations, which ends at the first one that is read without an error.
  unfoldable pub merge_annotations : List (String × String) → S → S
  unfolding read_spo_profile_cr
  merge_annotations [] r = r
  merge_annotations ((k, v) ∷ rest) r =
      let others = merge_annotations rest r in
      if not (contains_text k spo_annotation)
      then others
      else let (ns, name) = parse_name_ns v in
        if str_eq ns "" || str_eq name ""
        then r
        else let (syscalls, ok) = read_spo_profile_cr name ns in
          if ok then union_nonempty r syscalls else others

  unfoldable pub get_syscalls : Pod → S
  unfolding merge_profile merge_profiles merge_annotations read_spo_profile_cr
  get_syscalls pod =
      let r =
        merge_annotations pod.annotations
          (merge_profiles pod.container_profiles (merge_profile pod.profile empty)) in
      if len r == 0
      then union_nonempty r
          (read_spo_profile_cr profiles.default_profile_name profiles.default_profile_namespace).0
      else r
