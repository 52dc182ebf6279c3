-- ===== src/Api/Coord.antt =====
-- treadmill-rs/src/api/coord_runner.rs. A `Uuid` is a number: it is only compared and printed.
use siplane.Base.{ℕ, String, Bool, Option, List}

pub record ParameterValue : Type 0 where
  pub value : String
  pub secret : Bool

pub record RendezvousServerSpec : Type 0 where
  pub client_id : ℕ
  pub server_base_url : String
  pub auth_token : String

pub record StartJobMessage : Type 0 where
  pub job_id : ℕ
  pub environment_id : ℕ
  pub ssh_keys : List String
  pub ssh_rendezvous_servers : List RendezvousServerSpec
  pub job_parameters : List (String × ParameterValue)
  pub board_parameters : List (String × ParameterValue)
  pub environment_parameters : List (String × ParameterValue)
  pub board_environment_parameters : List (String × ParameterValue)

pub record StopJobMessage : Type 0 where
  pub job_id : ℕ

pub data SseMessage : Type 0 where
  update_state : SseMessage
  start_job : StartJobMessage → SseMessage
  stop_job : StopJobMessage → SseMessage

pub data JobStartingStage : Type 0 where
  allocating provisioning booting : JobStartingStage

-- hostname, port and the fingerprints of the host's keys
pub data JobSessionConnectionInfo : Type 0 where
  direct_ssh rendezvous_ssh : String → ℕ → List String → JobSessionConnectionInfo

pub data JobState : Type 0 where
  starting : JobStartingStage → Option String → JobState
  ready : List JobSessionConnectionInfo → Option String → JobState
  stopping finished failed : Option String → JobState

pub data StdioFd : Type 0 where
  stdout stderr : StdioFd
