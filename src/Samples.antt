-- ===== src/Samples.antt =====
-- Sample values for the tests: a snapshot of a running transfer and a tri-path topology. Numbers
-- that need not be whole are in hundredths.
use fast_share.Common.{ℕ, true, false, none, some, List, [], ◌∷◌}
use fast_share.Common.Text.{Text, units}
use fast_share.Topology.{TopologyRole, TopologyNode, TopologyLink, TopologySnapshot}
use fast_share.Types.{Config, Snapshot, ServerStatus, TransferStatus}
use fast_share.Types.{PacketEvent, PacketStatus, PacketType}

abbrev pub config : Config
config = record {
  server_ip = units "127.0.0.1";
  udp_port = 5001;
  packet_size = 1024;
  timeout_ms = 500;
  window_size = 1;
  max_retries = 5;
  topology_enabled = false;
  topology_latency_ms = 10;
}

abbrev pub snapshot : Snapshot ℕ
snapshot = record {
  server_status = ServerStatus.running;
  server_error = none;
  server_sessions = 1;
  server_port = 5001;
  config = config;
  testing = record {
    loss_enabled = false;
    loss_probability = 10;
    corrupt_enabled = false;
    corrupt_probability = 10;
  };
  transfer_status = TransferStatus.transferring;
  transfer_error = none;
  file_size = 4096;
  total_packets = 4;
  packets_sent = 2;
  packets_acked = 1;
  packets_lost = 0;
  retransmissions = 0;
  confirmed_bytes = 1024;
  current_sequence = 2;
  duplicate_packets = 0;
  checksum_errors = 0;
  last_duplicate_seq = none;
  last_loss_seq = none;
  elapsed_seconds = 100;
  received_path = none;
  wire_bytes = 2100;
  rtt_ms = none;
  rtt_min_ms = none;
  rtt_max_ms = none;
  srtt_ms = none;
  rtt_samples = 1;
  goodput_kbps = 100;
  throughput_kbps = 200;
  loss_percent = 0;
  eta_seconds = none;
  resumed_from_seq = 0;
  resumed_bytes = 0;
  scheduler = none;
}

abbrev pub tri_snapshot : Snapshot ℕ
tri_snapshot = record snapshot { config = record config { topology_enabled = true } }

abbrev pub node : Text → TopologyRole → ℕ → TopologyNode ℕ
node id role port = record {
  id = id;
  label = id;
  role = role;
  host = units "127.0.0.1";
  port = port;
  up = true;
  config = none;
}

abbrev pub link : Text → Text → Text → TopologyLink ℕ
link id a b = record { id = id; a = a; b = b; latency_ms = 1000 }

abbrev pub lane_a : List Text
lane_a = units "src" ∷ units "a1" ∷ units "dst" ∷ []

abbrev pub lane_b : List Text
lane_b = units "src" ∷ units "b1" ∷ units "dst" ∷ []

-- Two of the lanes, with one hop each.
abbrev pub topology : TopologySnapshot ℕ
topology = record {
  enabled = true;
  nodes =
      node (units "src") TopologyRole.source 6201
      ∷ node (units "a1") TopologyRole.router 6202
      ∷ node (units "b1") TopologyRole.router 6203
      ∷ node (units "dst") TopologyRole.dest 6204
      ∷ [];
  links =
      link (units "src-a1") (units "src") (units "a1")
      ∷ link (units "a1-dst") (units "a1") (units "dst")
      ∷ link (units "src-b1") (units "src") (units "b1")
      ∷ link (units "b1-dst") (units "b1") (units "dst")
      ∷ [];
  route = some lane_a;
  source = units "src";
  dest = units "dst";
  link_stats = [];
  preset = units "tri";
  presets = [];
  paths = lane_a ∷ lane_b ∷ [];
  multipath = record {
    enabled = true;
    window = 10000;
    flag_loss = 20;
    recover_loss = 10;
    probe_share = 10;
    explore_per_lane = 5;
    min_samples = 10;
  };
}

abbrev pub event : ℕ → ℕ → PacketStatus → PacketEvent ℕ
event id seq status = record {
  id = id;
  t = 0;
  seq = seq;
  type = PacketType.payload;
  status = status;
  retries = 0;
  lane = none;
  rtt_ms = none;
  size = 1024;
}
