-- ===== src/Account/Requests.antt =====
-- The methods of src/matrix/account.rs that make one request and send it: the password, the
-- deactivation and the third-party identifiers. Parameters: the answers, and `send`, over a world `W`.
use matrix_goose.Prelude.{ℕ, Option, none, String}
use matrix_goose.Exec.{Result}
use matrix_goose.Error.{Error, HttpResult, or_http}
use matrix_goose.Config.Request.{RequestConfig}

-- The requests. `Auth` is the data of the user-interactive authentication, `Medium` the kind of a
-- third-party identifier.
pub data AccountRequest (Auth Medium : Type 0) : Type 0 where
  change_password_request : String → Option Auth → AccountRequest Auth Medium
  deactivate_request : Option String → Option Auth → AccountRequest Auth Medium
  get_3pids_request : AccountRequest Auth Medium
  request_token_via_email_request : String → String → ℕ → AccountRequest Auth Medium
  request_token_via_msisdn_request : String → String → String → ℕ → AccountRequest Auth Medium
  add_3pid_request : String → String → Option Auth → AccountRequest Auth Medium
  delete_3pid_request : Medium → String → Option String → AccountRequest Auth Medium

pub record Requests (W Auth Medium : Type 0) : Type 1 where
  pub Answer : AccountRequest Auth Medium → Type 0
  pub send :
      (request : AccountRequest Auth Medium)
      → Option RequestConfig
      → W
      → HttpResult (Answer request) × W

module _ {W Auth Medium : Type 0} (C : Requests W Auth Medium) where
  -- `Ok(self.client.send(request, None).await?)`
  abbrev sent : (request : AccountRequest Auth Medium) → W → Result Error (C.Answer request) × W
  sent request w = or_http (C.send request none w)

  unfoldable change_password :
      (new_password : String) (auth_data : Option Auth)
      → W
      → Result Error (C.Answer (change_password_request new_password auth_data)) × W
  change_password new_password auth_data = sent (change_password_request new_password auth_data)

  unfoldable deactivate :
      (id_server : Option String) (auth_data : Option Auth)
      → W
      → Result Error (C.Answer (deactivate_request id_server auth_data)) × W
  deactivate id_server auth_data = sent (deactivate_request id_server auth_data)

  unfoldable get_3pids : W → Result Error (C.Answer get_3pids_request) × W
  get_3pids = sent get_3pids_request

  unfoldable request_3pid_email_token :
      (client_secret email : String) (send_attempt : ℕ)
      → W
      → Result Error (C.Answer (request_token_via_email_request client_secret email send_attempt))
        × W
  request_3pid_email_token client_secret email send_attempt =
      sent (request_token_via_email_request client_secret email send_attempt)

  unfoldable request_3pid_msisdn_token :
      (client_secret country phone_number : String) (send_attempt : ℕ)
      → W
      → Result Error (
          C.Answer
            (request_token_via_msisdn_request client_secret country phone_number send_attempt))
        × W
  request_3pid_msisdn_token client_secret country phone_number send_attempt =
      sent (request_token_via_msisdn_request client_secret country phone_number send_attempt)

  unfoldable add_3pid :
      (client_secret sid : String) (auth_data : Option Auth)
      → W
      → Result Error (C.Answer (add_3pid_request client_secret sid auth_data)) × W
  add_3pid client_secret sid auth_data = sent (add_3pid_request client_secret sid auth_data)

  unfoldable delete_3pid :
      (address : String) (medium : Medium) (id_server : Option String)
      → W
      → Result Error (C.Answer (delete_3pid_request medium address id_server)) × W
  delete_3pid address medium id_server = sent (delete_3pid_request medium address id_server)
