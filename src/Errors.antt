-- ===== src/Errors.antt =====
-- The exceptions that the code throws: include/beamdrop/transfer/TransferError.hpp,
-- include/beamdrop/network/NetworkError.hpp, include/beamdrop/filesystem/FileSystemError.hpp, and
-- the other `std::exception`s. An exception is its class and its code; the message text is left out.
use beam_drop.Prelude.{◌≡◌, ◌⊎◌, inl, inr, refl, Bool, true, false}

-- transfer::ErrorCode
pub data TransferCode : Type 0 where
  invalid_configuration invalid_payload unexpected_packet unsafe_path : TransferCode
  invalid_resume_state invalid_resume_offset : TransferCode
  file_open_failed file_read_failed file_write_failed file_close_failed : TransferCode
  size_mismatch checksum_mismatch cancelled : TransferCode

-- network::ErrorCode
pub data NetworkCode : Type 0 where
  runtime_initialization_failed address_resolution_failed socket_creation_failed : NetworkCode
  set_socket_option_failed bind_failed listen_failed accept_failed : NetworkCode
  connect_failed send_failed receive_failed invalid_address : NetworkCode

-- filesystem::ErrorCode
pub data FileCode : Type 0 where
  not_found not_regular_file_or_directory permission_denied : FileCode
  metadata_unavailable directory_iteration_failed : FileCode

-- `runtime` stands for every other `std::exception`, `std::runtime_error` first.
pub data Exception : Type 0 where
  transfer : TransferCode → Exception
  network : NetworkCode → Exception
  file_system : FileCode → Exception
  runtime : Exception

-- What a function that may throw returns.
pub data Result {ℓ} (A : Type ℓ) : Type ℓ where
  ok : A → Result A
  err : Exception → Result A

module _ {ℓ κ} {A : Type ℓ} {B : Type κ} where
  infixl 5 ◌>>=◌
  -- The steps behind one that threw are not taken.
  abbrev pub ◌>>=◌ : Result A → (A → Result B) → Result B
  err thrown >>= rest = err thrown
  ok value >>= rest = rest value

infixl 5 ◌>>◌
abbrev pub ◌>>◌ {ℓ} : {A : Type ℓ} → Result (Unit {0}) → Result A → Result A
check >> rest = check >>= λ _. rest

-- `if (bad) throw e;`
abbrev pub throw_if : Bool → Exception → Result (Unit {0})
throw_if true e = err e
throw_if false e = ok tt

pub Result-cases {ℓ} :
    {A : Type ℓ} (r : Result A) → ((a : A) × (r ≡ ok a)) ⊎ ((e : Exception) × (r ≡ err e))
Result-cases (ok a) = inl (a, refl)
Result-cases (err e) = inr (e, refl)
