-- ===== src/Running/Rooted.antt =====
-- What `root_spec` of run.py gives the root task.
use ancalagon.Base.{
  String, same_text, FilePath, Bool, true, false, if◌then◌else◌, List, Option, some, none, Result,
  ok, raise, value_error, require, ◌≡◌, refl, ap, subst, Bool-cases, inl, inr, ok-injective,
  raise-ok, arith,
}
use ancalagon.Base.Exec.{pure, lift, >>=-returned}
use ancalagon.Tools.Workspace.{FileSystem}
use ancalagon.Running.Root.{
  RunSettings, role_named, Values, AgentSpec, text_of, goal_of, from_goal, as_value_error,
  input_given, root_spec,
}

-- The text is what the file system returned for the path.
abbrev pub Reads : {W : Type 0} → FileSystem W → FilePath → String → Type 0
Reads {W} fs path content = (s s' : W) × (fs.read_text path s ≡ (ok content, s'))

-- What the root task is given, by what the run's settings name.
pub record IsRooted {W : Type 0} (v : Values) (fs : FileSystem W) (settings : RunSettings)
    (roles : List (String × v.Role)) (spec : AgentSpec v) : Type 0 where
  pub called : spec.task_id ≡ "root"
  pub named : role_named settings.role roles ≡ some spec.role
  pub has_file : same_text settings.goal_file "" ≡ false
  pub has_goal : v.is_blank spec.goal ≡ false
  pub goal_read : Reads fs (v.path_of settings.goal_file) spec.goal
  pub class : v.Class
  pub imported : v.input_class spec.role ≡ ok class
  -- with no input file, the input is made from the goal
  pub from_goal_alone :
      same_text settings.input_file "" ≡ true → v.from_text class spec.goal ≡ ok spec.input
  pub from_file :
      same_text settings.input_file "" ≡ false
      → (content : String) × Reads fs (v.path_of settings.input_file) content
        × (v.from_json class content ≡ ok spec.input)

module _ {W A : Type 0} where
  lift-returned : (r : Result A) (s s' : W) (a : A) → lift r s ≡ (ok a, s') → r ≡ ok a
  lift-returned r s s' a h = ap (λ (p : Result A × W). p.0) h

  pure-returned : (s s' : W) (a b : A) → pure a s ≡ (ok b, s') → a ≡ b
  pure-returned s s' a b h = ok-injective (ap (λ (p : Result A × W). p.0) h)

  raise-returned : {B : Type 0} {e : _} (s s' : W) (a : A) → lift (raise e) s ≡ (ok a, s') → B
  raise-returned s s' a h = cc

module _ {W : Type 0} (v : Values) (fs : FileSystem W) where
  text_of-returned :
      (path : FilePath) (s s' : W) (content : String)
      → text_of v fs path s ≡ (ok content, s')
      → Reads fs path content
  unfolding text_of
  text_of-returned path s s' content h =
      let (there, s₁, is, k) = >>=-returned (fs.is_file path) _ s content s' h in by there s₁ k
    where
      by :
          (there : Bool) (s₁ : W)
          → (if there then fs.read_text path else lift (raise value_error)) s₁ ≡ (ok content, s')
          → Reads fs path content
      by true s₁ k = (s₁, s', k)
      by false s₁ k = raise-returned s₁ s' content k

  goal_of-returned :
      (settings : RunSettings) (s s' : W) (goal : String)
      → goal_of v fs settings s ≡ (ok goal, s')
      → (same_text settings.goal_file "" ≡ false)
        × (v.is_blank goal ≡ false)
        × Reads fs (v.path_of settings.goal_file) goal
  unfolding goal_of
  goal_of-returned settings s s' goal h = elim (Bool-cases (same_text settings.goal_file "")) [
    | inl none_named ↦ raise-returned s s' goal (rw none_named at h)
    | inr named ↦
        let (g, s₁, read, k) =
          >>=-returned (text_of v fs (v.path_of settings.goal_file)) _ s goal s' (rw named at h) in
        elim (Bool-cases (v.is_blank g)) [
          | inl blank ↦ raise-returned s₁ s' goal (rw blank at k)
          | inr said ↦
              subst
                (λ z.
                  (same_text settings.goal_file "" ≡ false)
                  × (v.is_blank z ≡ false)
                  × Reads fs (v.path_of settings.goal_file) z)
                (pure-returned s₁ s' g goal (rw said at k))
                (named, said, text_of-returned (v.path_of settings.goal_file) s s₁ g read)
        ]
  ]

  as_value_error-ok : {A : Type 0} (r : Result A) (a : A) → as_value_error r ≡ ok a → r ≡ ok a
  unfolding as_value_error
  as_value_error-ok (ok x) a h = h
  as_value_error-ok (raise e) a h = ground arith

  input_given-returned :
      (settings : RunSettings) (class : v.Class) (goal : String) (s s' : W) (given : v.Value)
      → input_given v fs settings class goal s ≡ (ok given, s')
      → (same_text settings.input_file "" ≡ true → v.from_text class goal ≡ ok given)
        × (same_text settings.input_file "" ≡ false
            → (content : String) × Reads fs (v.path_of settings.input_file) content
              × (v.from_json class content ≡ ok given))
  unfolding input_given from_goal
  input_given-returned settings class goal s s' given h =
      elim (Bool-cases (same_text settings.input_file "")) [
        | inl unnamed ↦ (
          λ _.
              as_value_error-ok (v.from_text class goal) given
                (lift-returned (from_goal v fs class goal) s s' given (rw unnamed at h)),
          λ named. absurd (ground (arith, unnamed, named)),
        )
        | inr named ↦
            let (content, s₁, read, k) =
              >>=-returned (text_of v fs (v.path_of settings.input_file)) _ s given s'
                (rw named at h) in
            (
              λ unnamed. absurd (ground (arith, unnamed, named)),
              λ _. (
                content,
                text_of-returned (v.path_of settings.input_file) s s₁ content read,
                lift-returned (v.from_json class content) s₁ s' given k,
              ),
            )
      ]

-- Where `root_spec` returns, the root task has the role that the settings name and the text that
-- was read from the goal file, which is not blank; and where no input file is named its input is
-- what the role's input class makes of the goal, and otherwise what it makes of the text that was
-- read from the input file.
pub root_spec-IsRooted :
    {W : Type 0} (v : Values) (fs : FileSystem W) (settings : RunSettings)
    (roles : List (String × v.Role)) (s s' : W) (spec : AgentSpec v)
    → root_spec v fs settings roles s ≡ (ok spec, s')
    → IsRooted v fs settings roles spec
unfolding root_spec
root_spec-IsRooted v fs settings roles s s' spec h =
    let (role, s₁, hr, h₁) =
      >>=-returned (lift (require value_error (role_named settings.role roles))) _ s spec s' h in
    let (goal, s₂, hg, h₂) = >>=-returned (goal_of v fs settings) _ s₁ spec s' h₁ in
    let (class, s₃, hc, h₃) = >>=-returned (lift (v.input_class role)) _ s₂ spec s' h₂ in
    let (given, s₄, hi, h₄) = >>=-returned (input_given v fs settings class goal) _ s₃ spec s' h₃ in
    let has = goal_of-returned v fs settings s₁ s₂ goal hg in
    let from = input_given-returned v fs settings class goal s₃ s₄ given hi in
    subst (IsRooted v fs settings roles) (pure-returned s₄ s' _ spec h₄) (record {
      called = refl;
      named = found (role_named settings.role roles) role (lift-returned _ s s₁ role hr);
      has_file = has.0;
      has_goal = has.1;
      goal_read = has.2;
      class = class;
      imported = lift-returned (v.input_class role) s₂ s₃ class hc;
      from_goal_alone = from.0;
      from_file = from.1;
    })
  where
    found : {A : Type 0} (o : Option A) (a : A) → require value_error o ≡ ok a → o ≡ some a
    found none a h = raise-ok h
    found (some b) a h = ap some (ok-injective h)
