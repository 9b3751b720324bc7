-- ===== src/Types.antt =====
-- frontend/lib/types.ts: the controller's responses.
use fast_share.Common.{ℕ, Bool, List, Option}
use fast_share.Common.Text.{Text}
use fast_share.Topology.{SchedulerState}

pub data ServerStatus : Type 0 where
  stopped running error : ServerStatus

pub data TransferStatus : Type 0 where
  idle transferring completed failed cancelled : TransferStatus

pub data PacketStatus : Type 0 where
  sent waiting acked timeout retransmitted failed : PacketStatus

pub record Config : Type 0 where
  pub server_ip : Text
  pub udp_port : ℕ
  pub packet_size : ℕ
  pub timeout_ms : ℕ
  pub window_size : ℕ
  pub max_retries : ℕ
  pub topology_enabled : Bool
  pub topology_latency_ms : ℕ

pub record TestingConfig (N : Type 0) : Type 0 where
  pub loss_enabled : Bool
  pub loss_probability : N
  pub corrupt_enabled : Bool
  pub corrupt_probability : N

pub record Snapshot (N : Type 0) : Type 0 where
  pub server_status : ServerStatus
  pub server_error : Option Text
  pub server_sessions : ℕ
  pub server_port : ℕ
  pub config : Config
  pub testing : TestingConfig N
  pub transfer_status : TransferStatus
  pub transfer_error : Option Text
  pub file_size : ℕ
  pub total_packets : ℕ
  pub packets_sent : ℕ
  pub packets_acked : ℕ
  pub packets_lost : ℕ
  pub retransmissions : ℕ
  pub confirmed_bytes : ℕ
  pub current_sequence : ℕ
  pub duplicate_packets : ℕ
  pub checksum_errors : ℕ
  pub last_duplicate_seq : Option ℕ
  pub last_loss_seq : Option ℕ
  pub elapsed_seconds : N
  pub received_path : Option Text
  pub wire_bytes : ℕ
  pub rtt_ms : Option N
  pub rtt_min_ms : Option N
  pub rtt_max_ms : Option N
  pub srtt_ms : Option N
  pub rtt_samples : ℕ
  pub goodput_kbps : N
  pub throughput_kbps : N
  pub loss_percent : N
  pub eta_seconds : Option N
  pub resumed_from_seq : ℕ
  pub resumed_bytes : ℕ
  pub scheduler : Option (SchedulerState N)

-- Answer of GET /api/resume/check for the selected file.
pub record ResumeInfo (N : Type 0) : Type 0 where
  pub available : Bool
  pub resumed_seq : ℕ
  pub received_bytes : ℕ
  pub total_packets : ℕ
  pub file_size : ℕ
  pub percent : N

pub data PacketType : Type 0 where
  start payload end ack : PacketType

pub record PacketEntry (N : Type 0) : Type 0 where
  pub seq : ℕ
  pub type : PacketType
  pub size : ℕ
  pub status : PacketStatus
  pub retries : ℕ
  pub rtt_ms : Option N
  pub lane : Option ℕ

pub record FeedLine (N : Type 0) : Type 0 where
  pub t : N
  pub text : Text

-- One packet status transition of the append-only stream; `id` is its cursor.
pub record PacketEvent (N : Type 0) : Type 0 where
  pub id : ℕ
  pub t : N
  pub seq : ℕ
  pub type : PacketType
  pub status : PacketStatus
  pub retries : ℕ
  pub lane : Option ℕ
  pub rtt_ms : Option N
  pub size : ℕ

-- `cursor` is -1 only before the first poll, which the client keeps to itself.
pub record PacketResponse (N : Type 0) : Type 0 where
  pub packets : List (PacketEntry N)
  pub feed : List (FeedLine N)
  pub events : List (PacketEvent N)
  pub cursor : ℕ
  pub gap : Option Bool

pub record SelectedFile : Type 0 where
  pub name : Text
  pub size : ℕ
