-- ===== src/Storage/Pairing/Steps.antt =====
-- Runs of the operations on pairing credentials and device sessions
-- (crates/homebot-storage/src/lib.rs), each call a step.
use home_bot.Common.{ℕ, List, [], ◌∷◌, ◌++◌, Result, ok, err}
use home_bot.Common.Int.{ℤ}
use home_bot.Common.Text.{Text}
use home_bot.Storage.Errors.{StorageError}
use home_bot.Storage.Pairing.{
  DeviceSession, Exchange, create_pairing_credential, exchange_pairing_credential, Database,
}
use home_bot.Storage.Pairing.Sessions.{authenticate_device_session, revoke_device_session}

pub data Step : Type 0 where
  create :
      (owner_id id token_digest native_proof_digest : ℕ)
      (endpoint expected_origin endpoint_kind : Text) (created_at_ms expires_at_ms : ℤ)
      → Step
  exchange : Exchange → Step
  authenticate : (token_digest : ℕ) → (now_ms : ℤ) → Step
  revoke : (owner_id device_id : ℕ) → (now_ms : ℤ) → Step

unfoldable pub step : Database → Step → Database
step db (create owner_id id token proof endpoint origin kind created_at_ms expires_at_ms) =
    (create_pairing_credential db owner_id id token proof endpoint origin kind created_at_ms
      expires_at_ms).0
step db (exchange x) = (exchange_pairing_credential db x).0
step db (authenticate token_digest now_ms) = (authenticate_device_session db token_digest now_ms).0
step db (revoke owner_id device_id now_ms) = (revoke_device_session db owner_id device_id now_ms).0

abbrev pub succeeded : Exchange → Result StorageError DeviceSession → List Exchange
succeeded x (err e) = []
succeeded x (ok session) = x ∷ []

-- The exchange, where a step is one that succeeds.
unfoldable pub redeemed : Database → Step → List Exchange
redeemed db (create owner_id id token proof endpoint origin kind created_at_ms expires_at_ms) = []
redeemed db (exchange x) = succeeded x (exchange_pairing_credential db x).1
redeemed db (authenticate token_digest now_ms) = []
redeemed db (revoke owner_id device_id now_ms) = []

-- The database after some steps, the last step first.
unfoldable pub run : List Step → Database → Database
unfolding step
run [] db = db
run (next ∷ steps) db = step (run steps db) next

-- The exchanges that succeeded.
unfoldable pub log : List Step → Database → List Exchange
unfolding redeemed
log [] db = []
log (next ∷ steps) db = log steps db ++ redeemed (run steps db) next

abbrev pub no_rows : Database
no_rows = record { credentials = []; sessions = []; attempts = []; last_attempt = 0 }
