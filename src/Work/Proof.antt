-- ===== src/Work/Proof.antt =====
-- When the checks of execution.ts find nothing against a photo proof.
use kootha.Prelude.{
  ℕ, ◌≡◌, ◌*◌, Bool, true, false, ◌&&◌, some, List, [], ◌∷◌, String, arith, includes, leb,
}
use kootha.Prelude.Json.{Text}
use kootha.Statuses.{AdWorkExecutionDayStatus}
use kootha.Work.Execution.{
  validate_photo_proof_input, validate_proof_photo_file, can_upload_photo_proof, can_end_work,
  is_filled, allowed_proof_photo_mime_types,
}

-- No error is among the messages.
abbrev pub is_clean : List String → Bool
is_clean [] = true
is_clean (message ∷ messages) = false

-- The photo proof of a running day: its texts are filled and its file is a photo of at most 5 MB.
abbrev pub is_photo_proof : AdWorkExecutionDayStatus → Text → Text → String → ℕ → Bool
is_photo_proof status note place mime_type size =
    can_end_work status
    && (is_filled place
        && (is_filled note
            && (includes mime_type allowed_proof_photo_mime_types && leb size (5 * 1024 * 1024))))

-- A photo proof of a given kind and size has no error exactly if work is under way, its place and its
-- note are filled, it is a JPG, PNG or WebP photo, and it has at most 5 MB.
pub validate_photo_proof_input_lem :
    (status : AdWorkExecutionDayStatus) (note place : Text) (mime_type : String) (size : ℕ)
    → is_clean (validate_photo_proof_input status note place (some mime_type) (some size))
      ≡ is_photo_proof status note place mime_type size
unfolding validate_photo_proof_input validate_proof_photo_file can_upload_photo_proof can_end_work
validate_photo_proof_input_lem status note place mime_type size = ground arith
