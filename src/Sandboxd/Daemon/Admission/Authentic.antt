-- ===== src/Sandboxd/Daemon/Admission/Authentic.antt =====
-- crates/gobrowse-sandboxd/src/daemon.rs: which lines are admitted, and which connections go on.
use Prim.Native.String.{String}
use gobrowseos.Prelude.{
  ℕ, ◌≡◌, ◌↔◌, ◌≢◌, refl, Bool, true, false, ◌||◌, Option, none, some, List, [], ◌∷◌, any, all,
  length, arith, inl, inr, Bool-cases, ok, err, ◌==◌, leb,
}
use gobrowseos.Core.Sandbox.{Bytes, is_empty}
use gobrowseos.Sandboxd.Daemon.Errors.{
  ResponseEnvelope, error_response, describe, sandbox_protocol_version,
}
use gobrowseos.Sandboxd.Daemon.Operations.{SandboxOperation, RequestEnvelope, terminal_mutation}
use gobrowseos.Sandboxd.Daemon.Admission.{
  Authenticator, new, verify, Request, is_line_break, route_of, admit_request, admit_parsed, admit,
  keeps_connection, converse, Received, line_of, oversized,
}

module _ (sha256 : Bytes → ℕ) where
  -- An authenticator that was made for a token verifies exactly that token, if no other candidate
  -- has its digest.
  pub verify_iff :
      (token candidate : Bytes) (auth : Authenticator)
      → (sha256 token ≡ sha256 candidate → candidate ≡ token)
      → new sha256 token ≡ ok auth
      → (verify sha256 auth candidate ≡ true) ↔ (candidate ≡ token)
  unfolding new verify
  verify_iff token candidate auth unique made =
      (λ v. unique (ground arith), λ e. rw e (ground arith))

module _ (sha256 : Bytes → ℕ) (to_vec : SandboxOperation → Option Bytes)
    (auth : Authenticator) where
  -- What an admitted request went through.
  abbrev IsAdmitted : RequestEnvelope → Request → Type 0
  IsAdmitted request q =
      (q.request_id ≢ 0)
      × (q.request_id ≡ request.request_id)
      × (verify sha256 auth request.token ≡ true)
      × (request.version ≡ sandbox_protocol_version)
      × (q.operation ≡ request.operation)
      × (route_of sha256 to_vec request.operation (terminal_mutation request.operation)
          ≡ some q.route)

module _ (sha256 : Bytes → ℕ) (to_vec : SandboxOperation → Option Bytes) {R : Type 0}
    (auth : Authenticator) where
  -- The refused line whose response keeps the connection.
  admit_request_kept :
      (request : RequestEnvelope) (a : ResponseEnvelope R)
      → admit_request sha256 to_vec auth request ≡ err a
      → keeps_connection a ≡ true
      → verify sha256 auth request.token ≡ true
  unfolding keeps_connection error_response describe
  admit_request_kept request a = elim (Bool-cases (request.request_id == 0)) [
    | inl nil ↦ rw nil (λ h k. absurd (ground arith))
    | inr id ↦ rw id (elim (Bool-cases (verify sha256 auth request.token)) [
      | inr refused ↦ rw refused (λ h k. absurd (ground arith))
      | inl verified ↦ λ h k. verified
    ])
  ]

  admit_parsed_kept :
      (shape : Bool) (o : Option RequestEnvelope) (a : ResponseEnvelope R)
      → admit_parsed sha256 to_vec auth shape o ≡ err a
      → keeps_connection a ≡ true
      → (request : RequestEnvelope) × (o ≡ some request) × (verify sha256 auth request.token ≡ true)
  unfolding keeps_connection error_response describe
  admit_parsed_kept shape none a h k = absurd (ground arith)
  admit_parsed_kept false (some request) a h k = absurd (ground arith)
  admit_parsed_kept true (some request) a h k = (request, refl, admit_request_kept request a h k)

  -- A line that is refused with a response after which the connection goes on was read as a request
  -- that has the right token.
  pub admit_kept :
      (from_slice : Bytes → Option RequestEnvelope) (shape : Bytes → Bool) (line : Bytes)
      (a : ResponseEnvelope R)
      → admit sha256 to_vec auth from_slice shape line ≡ err a
      → keeps_connection a ≡ true
      → (request : RequestEnvelope) × (from_slice line ≡ some request)
        × (verify sha256 auth request.token ≡ true)
  unfolding admit keeps_connection error_response describe
  admit_kept from_slice shape line a =
      elim (Bool-cases (is_empty line || (leb 524288 (length line) || any is_line_break line))) [
        | inl bad ↦ rw bad (λ h k. absurd (ground arith))
        | inr good ↦ rw good (admit_parsed_kept (shape line) (from_slice line) a)
      ]

module _ {R : Type 0} where
  -- All but the last.
  abbrev pub init : List (ResponseEnvelope R) → List (ResponseEnvelope R)
  init [] = []
  init (a ∷ []) = []
  init (a ∷ b ∷ rest) = a ∷ init (b ∷ rest)

  init_kept :
      (a : ResponseEnvelope R) (rest : List (ResponseEnvelope R))
      → keeps_connection a ≡ true
      → all keeps_connection (init rest) ≡ true
      → all keeps_connection (init (a ∷ rest)) ≡ true
  init_kept a [] k h = refl
  init_kept a (b ∷ rest) k h = rw k h

module _ {R : Type 0} {S : Type 0} (handle : S → Bytes → S × ResponseEnvelope R) where
  -- Every response of a connection but the last one that it writes is one that keeps the
  -- connection, so nothing is handled after a line that is not.
  pub converse_kept :
      (s : S) (received : List Received)
      → all keeps_connection (init (converse handle s received).1) ≡ true
  unfolding converse
  converse_kept s [] = refl
  converse_kept s (oversized ∷ rest) = refl
  converse_kept s (line_of line ∷ rest) = elim (Bool-cases (keeps_connection (handle s line).1)) [
    | inr stops ↦ rw stops refl
    | inl goes_on ↦ rw goes_on (
        init_kept (handle s line).1 (converse handle (handle s line).0 rest).1 goes_on
          (converse_kept (handle s line).0 rest))
  ]
