-- ===== src/Api/Puppet.antt =====
-- treadmill-rs/src/api/runner_puppet.rs. An address is a number: it is only passed on and printed.
use siplane.Base.{ℕ, String, Option, List}

pub data PuppetReq : Type 0 where
  ping ssh_keys network_config : PuppetReq

pub data PuppetEvent : Type 0 where
  ready : PuppetEvent

pub data PuppetMsg : Type 0 where
  event : (puppet_event_id : ℕ) → PuppetEvent → PuppetMsg
  request : (request_id : ℕ) → PuppetReq → PuppetMsg

pub data RunnerEvent : Type 0 where
  ssh_keys_updated_event : (event_id : ℕ) → RunnerEvent

-- `Ipv4NetworkConfig` and `Ipv6NetworkConfig`: the same fields, at two types of addresses
pub record Ipv4NetworkConfig : Type 0 where
  pub address : ℕ
  pub prefix_length : ℕ
  pub gateway : Option ℕ
  pub nameservers : List ℕ

pub record Ipv6NetworkConfig : Type 0 where
  pub address : ℕ
  pub prefix_length : ℕ
  pub gateway : Option ℕ
  pub nameservers : List ℕ

pub record NetworkConfig : Type 0 where
  pub hostname : String
  pub interface : Option String
  pub ipv4 : Option Ipv4NetworkConfig
  pub ipv6 : Option Ipv6NetworkConfig

pub data RunnerResp : Type 0 where
  ping_resp : RunnerResp
  ssh_keys_resp : List String → RunnerResp
  network_config : NetworkConfig → RunnerResp
  unsupported_request job_not_found : RunnerResp

pub data RunnerMsg : Type 0 where
  event : (runner_event_id : ℕ) → RunnerEvent → RunnerMsg
  response : (request_id : ℕ) → RunnerResp → RunnerMsg
  error : String → RunnerMsg
