-- ===== src/Tests/Sample.antt =====
-- One request of the user 1000 for `/usr/bin/id`, its files, and the tables that hold it.
use shudo.Prelude.{
  ℕ, true, false, Option, none, some, List, [], ◌∷◌, Bytes, codes, str_eq, if◌then◌else◌,
}
use shudo.Model.{
  Status, waiting, approved, FileMetadata, WorkingDirectoryMetadata, ExecutionRequest, Approval,
}
use shudo.State.Tables.{Codec, RequestRow, ApprovalRow, Tables}
use shudo.State.Requests.{TxIo}
use shudo.Integrity.{FileStat, Host}

abbrev pub the_id : Bytes
the_id = codes "r1"

abbrev pub the_hash : Bytes
the_hash = codes "h1"

abbrev pub id_file : FileStat
id_file = record {
  mode = 33261;
  size = 4;
  device = 1;
  inode = 2;
  uid = 0;
  mtime_sec = 3;
  mtime_nsec = 4;
  ctime_sec = 5;
  ctime_nsec = 6;
  content = codes "ELF!";
}

abbrev pub root_directory : FileStat
root_directory = record id_file { mode = 16877; inode = 7; content = [] }

-- The two files that there are. The content stands for its own digest.
abbrev pub two_files : Host
two_files = record {
  open_file = λ path. if str_eq path (codes "/usr/bin/id") then some id_file else none;
  open_directory = λ path. if str_eq path (codes "/") then some root_directory else none;
  sha256_hex = λ content. content;
}

abbrev pub id_metadata : FileMetadata
id_metadata = record {
  path = codes "/usr/bin/id";
  device = some 1;
  inode = some 2;
  size = some 4;
  owner_uid = some 0;
  mode = some 33261;
  mtime_ns = some (codes "3000000004");
  ctime_ns = some (codes "5000000006");
  sha256 = codes "ELF!";
}

abbrev pub root_metadata : WorkingDirectoryMetadata
root_metadata = record {
  path = codes "/";
  device = 1;
  inode = 7;
  owner_uid = 0;
  mode = 16877;
  mtime_ns = codes "3000000004";
  ctime_ns = codes "5000000006";
}

abbrev pub the_request : ExecutionRequest
the_request = record {
  version = 1;
  request_id = the_id;
  requester = record {
    uid = 1000;
    gid = 1000;
    pid = some 42;
    username = some (codes "ada");
    group_name = none;
  };
  execution = record {
    executable = codes "/usr/bin/id";
    argv = codes "id" ∷ codes "-u" ∷ [];
    cwd = codes "/";
    env = [];
  };
  executable_metadata = id_metadata;
  interpreter_metadata = none;
  interpreter_argument = none;
  working_directory_metadata = root_metadata;
  risk = record {
    shell = false;
    interpreter = false;
    script = false;
    environment_overrides = false;
    warnings = [];
  };
  policy_result = codes "require-approval";
  reason = codes "who am I";
  created_at = codes "t0";
  expires_at = codes "t9";
  nonce = codes "n";
}

abbrev pub the_approval : Approval
the_approval = record {
  version = 1;
  approval_id = codes "a1";
  request_id = the_id;
  request_hash = the_hash;
  decision = codes "approve";
  approved_by = record { subject = codes "uid:0"; display_name = some (codes "root") };
  approved_at = codes "t1";
  reason = [];
}

-- The times are `t0` to `t9`, and count as their last character.
abbrev clock : Bytes → Option ℕ
clock (t ∷ digit ∷ rest) = some digit
clock _ = none

-- Every text decodes to the one request or the one approval.
abbrev pub one_codec : Codec
one_codec = record {
  marshal_request = λ q. some (codes "{}");
  unmarshal_request = λ raw. some the_request;
  marshal_approval = λ a. some (codes "{}");
  unmarshal_approval = λ raw. some the_approval;
  json_uid = λ raw. some 1000;
  julianday = clock;
  parse_time = clock;
}

abbrev pub commits : TxIo
commits = record { begins = true; commits = true }

abbrev pub row_with : Status → RequestRow
row_with status = record {
  request_id = the_id;
  request_hash = the_hash;
  request_json = codes "{}";
  status = status;
  created_at = codes "t0";
  expires_at = codes "t9";
  output_bytes = 0;
  output_truncated = false;
}

abbrev pub approval_row : ApprovalRow
approval_row = record {
  approval_id = codes "a1";
  request_id = the_id;
  approval_json = codes "{}";
  received_at = codes "t1";
  consumed_at = none;
}

abbrev pub tables_with : Status → List ApprovalRow → Tables
tables_with status approvals = record {
  requests = row_with status ∷ [];
  approvals = approvals;
  executions = [];
  output_chunks = [];
  server_state = [];
  security_events = [];
  outbound_events = false;
  used_nonces = false;
  host_id_column = false;
}

-- The request waits, and it is approved.
abbrev pub tables_waiting : Tables
tables_waiting = tables_with waiting []

abbrev pub tables_approved : Tables
tables_approved = tables_with approved (approval_row ∷ [])
