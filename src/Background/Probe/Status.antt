-- ===== src/Background/Probe/Status.antt =====
-- internal/background/scheduler.go: the reply of a supernode's status API, and fetchStatus. The
-- request over HTTP, net.JoinHostPort and the decoder of JSON are parameters.
use lumescope.Prelude.{
  ℕ, String, Bool, true, false, Option, none, some, List, [], ◌∷◌, ◌==◌, nat_eq, if◌then◌else◌,
}
use lumescope.Prelude.Int.{ℤ, pos, ◌+ℤ◌, wrap_int}
use lumescope.Db.Types.{Float64}
use lumescope.Background.Sync.{int_or_zero}
use Prim.Native.String

pub record StorageVolume : Type 0 where
  pub total_bytes : String
  pub used_bytes : String
  pub usage_percent : Float64

-- the fields that fetchStatus reads; the nesting of the document is left out
pub record StatusResponse : Type 0 where
  pub version : String
  pub uptime_seconds : String
  pub cpu_usage_percent : Float64
  pub cpu_cores : ℤ
  pub memory_total_gb : Float64
  pub memory_used_gb : Float64
  pub memory_usage_percent : Float64
  pub storage_volumes : List StorageVolume
  pub hardware_summary : String
  pub peers_count : ℤ
  pub rank : ℤ
  pub p2p_db_size_mb : Float64
  pub p2p_db_records_count : String

pub record StatusSummary : Type 0 where
  pub available : Bool
  pub version : String
  pub uptime_seconds : ℤ
  pub cpu_usage_percent : Float64
  pub cpu_cores : ℤ
  pub memory_total_gb : Float64
  pub memory_used_gb : Float64
  pub memory_usage_percent : Float64
  pub storage_total_bytes : ℤ
  pub storage_used_bytes : ℤ
  pub storage_usage_percent : Float64
  pub hardware_summary : String
  pub peers_count : ℤ
  pub rank : ℤ
  pub p2p_db_size_mb : Float64
  pub p2p_records : ℤ

-- `statusSummary{Available: false}`: the other fields have their zero values
abbrev pub unavailable_status : StatusSummary
unavailable_status = record {
  available = false;
  version = "";
  uptime_seconds = pos 0;
  cpu_usage_percent = 0;
  cpu_cores = pos 0;
  memory_total_gb = 0;
  memory_used_gb = 0;
  memory_usage_percent = 0;
  storage_total_bytes = pos 0;
  storage_used_bytes = pos 0;
  storage_usage_percent = 0;
  hardware_summary = "";
  peers_count = pos 0;
  rank = pos 0;
  p2p_db_size_mb = 0;
  p2p_records = pos 0;
}

-- the variables of the loop over the volumes
pub record Storage : Type 0 where
  pub total : ℤ
  pub used : ℤ
  pub usage_percent : Float64

-- `total += v` on an int64, for each volume; a text that is no number adds nothing
unfoldable pub sum_volumes : Storage → List StorageVolume → Storage
sum_volumes s [] = s
sum_volumes s (vol ∷ vols) =
    sum_volumes
      (record {
        total = wrap_int 64 (s.total +ℤ int_or_zero vol.total_bytes);
        used = wrap_int 64 (s.used +ℤ int_or_zero vol.used_bytes);
        usage_percent = vol.usage_percent;
      })
      vols

unfoldable pub summarize : StatusResponse → StatusSummary
unfolding sum_volumes
summarize sr =
    let storage =
      sum_volumes (record { total = pos 0; used = pos 0; usage_percent = 0 }) sr.storage_volumes in
    record {
      available = true;
      version = sr.version;
      uptime_seconds = int_or_zero sr.uptime_seconds;
      cpu_usage_percent = sr.cpu_usage_percent;
      cpu_cores = wrap_int 32 sr.cpu_cores;
      memory_total_gb = sr.memory_total_gb;
      memory_used_gb = sr.memory_used_gb;
      memory_usage_percent = sr.memory_usage_percent;
      storage_total_bytes = storage.total;
      storage_used_bytes = storage.used;
      storage_usage_percent = storage.usage_percent;
      hardware_summary = sr.hardware_summary;
      peers_count = wrap_int 32 sr.peers_count;
      rank = wrap_int 32 sr.rank;
      p2p_db_size_mb = sr.p2p_db_size_mb;
      p2p_records = int_or_zero sr.p2p_db_records_count;
    }

pub record StatusApi : Type 0 where
  pub join_host_port : String → String → String
  -- a GET: the status code and the body, `none` if the request fails
  pub get : String → Option (ℕ × String)
  pub decode : String → Option StatusResponse

summary_of : Option StatusResponse → StatusSummary
unfolding summarize
summary_of none = unavailable_status
summary_of (some sr) = summarize sr

read_status : StatusApi → Option (ℕ × String) → StatusSummary
unfolding summary_of
read_status api none = unavailable_status
read_status api (some (status_code, body)) =
    if status_code == 200 then summary_of (api.decode body) else unavailable_status

unfoldable pub fetch_status : StatusApi → String → StatusSummary
unfolding read_status
fetch_status api host = read_status api (
    api.get (
      String.◌++◌ "http://"
        (String.◌++◌ (api.join_host_port host "8002") "/api/v1/status?includeP2pMetrics=true")))
