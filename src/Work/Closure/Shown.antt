-- ===== src/Work/Closure/Shown.antt =====
-- What the final proof summary of closure.ts shows of the proofs, and of the location of the phone.
use kootha.Prelude.{
  ◌≡◌, refl, ap, inl, inr, Bool, true, false, Option, none, some, List, [], ◌∷◌, ◌++◌, map, codes,
  any, any-append, arith, if◌then◌else◌, Bool-cases,
}
use kootha.Prelude.Json.{Text}
use kootha.Prelude.Text.{text_eq, text_eq_refl}
use kootha.Work.Closure.Exact.{is_approved_proof}
use kootha.Work.Closure.Summary.{
  FinalProofSummaryProof, FinalSummaryLocationProof, FinalProofSummaryInput,
  get_approved_final_proofs, proof_line, summary_lines, first_lines, day_line, or_line,
  build_final_summary_location_proof_lines, build_final_proof_summary_text,
}

module _ (input : FinalProofSummaryInput) where
  abbrev pub with_proofs : List FinalProofSummaryProof → FinalProofSummaryInput
  with_proofs proofs = record input { proofs = proofs }

  abbrev pub with_location : Option FinalSummaryLocationProof → FinalProofSummaryInput
  with_location location = record input { location_proof = location }

-- Whether a line is one of some lines.
unfoldable pub has_line : Text → List Text → Bool
unfolding any
has_line line = any (text_eq line)

-- An approved proof has its line in the summary. One that is not might as well be absent.
abbrev pub ShowsProof :
    FinalProofSummaryInput
    → List FinalProofSummaryProof
    → FinalProofSummaryProof
    → List FinalProofSummaryProof
    → Bool
    → Type 0
ShowsProof input before proof after true =
    has_line (proof_line proof) (summary_lines (with_proofs input (before ++ proof ∷ after))) ≡ true
ShowsProof input before proof after false =
    build_final_proof_summary_text (with_proofs input (before ++ proof ∷ after))
    ≡ build_final_proof_summary_text (with_proofs input (before ++ after))

without_unapproved :
    (before : List FinalProofSummaryProof) (proof : FinalProofSummaryProof)
    (after : List FinalProofSummaryProof)
    → is_approved_proof proof.status ≡ false
    → get_approved_final_proofs (before ++ proof ∷ after)
      ≡ get_approved_final_proofs (before ++ after)
unfolding get_approved_final_proofs
without_unapproved [] proof after h = rw h refl
without_unapproved (p ∷ before) proof after h =
    ap (λ rest. if is_approved_proof p.status then p ∷ rest else rest)
      (without_unapproved before proof after h)

approved-has_line :
    (before : List FinalProofSummaryProof) (proof : FinalProofSummaryProof)
    (after : List FinalProofSummaryProof)
    → is_approved_proof proof.status ≡ true
    → has_line
        (proof_line proof)
        (map proof_line (get_approved_final_proofs (before ++ proof ∷ after)))
      ≡ true
unfolding get_approved_final_proofs has_line
approved-has_line [] proof after h = rw h (ground (arith, text_eq_refl (proof_line proof)))
approved-has_line (p ∷ before) proof after h = elim (Bool-cases (is_approved_proof p.status)) [
  | inl e ↦ rw e (ground (arith, approved-has_line before proof after h))
  | inr e ↦ rw e (approved-has_line before proof after h)
]

or_line-has_line :
    (line : Text) (lines : List Text) (otherwise : Text)
    → has_line line lines ≡ true
    → has_line line (or_line lines otherwise) ≡ true
unfolding has_line
or_line-has_line line [] otherwise h = absurd (ground (arith, h))
or_line-has_line line (x ∷ lines) otherwise h = h

has_line_left :
    (line : Text) (xs ys : List Text) → has_line line xs ≡ true → has_line line (xs ++ ys) ≡ true
unfolding has_line
has_line_left line xs ys h = ground (arith, h, any-append (text_eq line) xs ys)

has_line_right :
    (line : Text) (xs ys : List Text) → has_line line ys ≡ true → has_line line (xs ++ ys) ≡ true
unfolding has_line
has_line_right line xs ys h = ground (arith, h, any-append (text_eq line) xs ys)

-- A line of the part for proofs is a line of the summary.
summary-has_line :
    (input : FinalProofSummaryInput) (line : Text)
    → has_line line (map proof_line (get_approved_final_proofs input.proofs)) ≡ true
    → has_line line (summary_lines input) ≡ true
unfolding summary_lines
summary-has_line input line h =
    let shown = or_line-has_line line _ (codes "No customer-approved photo proof selected.") h in
    has_line_right line (first_lines input) _ (
      has_line_right line (or_line (map day_line input.days) (codes "No completed day rows yet.")) _
        (has_line_right line (codes "Approved proof:" ∷ []) _ (has_line_left line _ _ shown)))

-- A proof that is approved has its line in the summary, wherever it stands in the list of proofs. One
-- that is not approved changes nothing in the text, so that nothing of it is shown. The location of the
-- phone changes nothing either where it is not to be included, whatever is known of it.
pub build_final_proof_summary_text_lem :
    (input : FinalProofSummaryInput) (before : List FinalProofSummaryProof)
    (proof : FinalProofSummaryProof) (after : List FinalProofSummaryProof)
    (location : FinalSummaryLocationProof)
    → ShowsProof input before proof after (is_approved_proof proof.status)
      × (build_final_proof_summary_text
            (with_location input (some (record location { include = false })))
          ≡ build_final_proof_summary_text (with_location input none))
unfolding build_final_proof_summary_text summary_lines build_final_summary_location_proof_lines
build_final_proof_summary_text_lem input before proof after location =
    (shows (is_approved_proof proof.status) refl, refl)
  where
    shows : (b : Bool) → is_approved_proof proof.status ≡ b → ShowsProof input before proof after b
    shows true h =
        summary-has_line (with_proofs input (before ++ proof ∷ after)) (proof_line proof)
          (approved-has_line before proof after h)
    shows false h = rw (without_unapproved before proof after h) refl
