-- ===== src/Service/Simulated/Blamed.antt =====
-- Who is blamed for a failed simulation.
use onchainburner.Base.{
  ℕ, ◌≡◌, ◌↔◌, refl, ap, ◌∙◌, Bool, true, false, List, [], ◌∷◌, ◌++◌, ◌==◌, if◌then◌else◌, if-cases,
  All, arith, inl, inr,
}
use onchainburner.Chain.{PublicKey}
use onchainburner.Service.{SimulationLine, frame_failed, other_line}
use onchainburner.Service.Simulated.{burner_kind, external_kind, classify_simulation_failure}

-- The first frame of the log that failed is the program's, with the code.
pub record IsFirstFrame (program : PublicKey) (code : ℕ) (lines : List SimulationLine)
    : Type 0 where
  pub before : List SimulationLine
  pub after : List SimulationLine
  pub split : lines ≡ before ++ frame_failed program code ∷ after
  pub silent : All (λ l. l ≡ other_line) before

frame_here :
    (burner_program program : PublicKey) (n code : ℕ)
    → (if program == burner_program then burner_kind n else external_kind program n)
      ≡ burner_kind code
    → (program ≡ burner_program) × (n ≡ code)
frame_here burner_program program n code e = elim (if-cases (program == burner_program) _ _ e) [
  | inl (same, f) ↦ (ground (arith, same), kind-injective f)
  | inr (_, f) ↦ absurd (cc f)
]
  where
    kind-injective : {a b : ℕ} → burner_kind a ≡ burner_kind b → a ≡ b
    kind-injective h = cc

to_frame :
    (burner_program : PublicKey) (names_budget : Bool) (lines : List SimulationLine) (code : ℕ)
    → classify_simulation_failure burner_program names_budget lines ≡ burner_kind code
    → IsFirstFrame burner_program code lines
unfolding classify_simulation_failure
to_frame burner_program true [] code e = cc
to_frame burner_program false [] code e = cc
to_frame burner_program names_budget (frame_failed program n ∷ lines) code e =
    let (p, c) = frame_here burner_program program n code e in
    record {
      before = [];
      after = lines;
      split =
          ap (λ x. frame_failed x n ∷ lines) p ∙ ap (λ x. frame_failed burner_program x ∷ lines) c;
      silent = tt;
    }
to_frame burner_program names_budget (other_line ∷ lines) code e =
    let later = to_frame burner_program names_budget lines code e in
    record {
      before = other_line ∷ later.before;
      after = later.after;
      split = ap (λ x. other_line ∷ x) later.split;
      silent = (refl, later.silent);
    }

of_frame :
    (burner_program : PublicKey) (names_budget : Bool) (before after : List SimulationLine)
    (code : ℕ)
    → All (λ l. l ≡ other_line) before
    → classify_simulation_failure burner_program names_budget
        (before ++ frame_failed burner_program code ∷ after)
      ≡ burner_kind code
unfolding classify_simulation_failure
of_frame burner_program names_budget [] after code h = ground arith
of_frame burner_program names_budget (frame_failed p n ∷ before) after code (e, h) = absurd (cc e)
of_frame burner_program names_budget (other_line ∷ before) after code (e, h) =
    of_frame burner_program names_budget before after code h

-- The burner is blamed, with a code, exactly where the first frame of the log that failed is its
-- own, with this code: never for the code of another program's frame or of a log without one.
pub classify_simulation_failure_iff :
    (burner_program : PublicKey) (names_budget : Bool) (lines : List SimulationLine) (code : ℕ)
    → (classify_simulation_failure burner_program names_budget lines ≡ burner_kind code)
      ↔ IsFirstFrame burner_program code lines
classify_simulation_failure_iff burner_program names_budget lines code = (
  to_frame burner_program names_budget lines code,
  λ h.
      ap (classify_simulation_failure burner_program names_budget) h.split
      ∙ of_frame burner_program names_budget h.before h.after code h.silent,
)
