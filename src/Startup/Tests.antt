-- ===== src/Startup/Tests.antt =====
-- A client 10.0.0.2 and a server 10.0.0.1 on one network, on a machine that swaps the bytes.
use Prim.Native.Char.{code}
use Prim.Native.String.{String}
use text.Mathlib.Text.{◌==◌ as str_eq}
use tcp_implementation_over.Common.{
  ℕ, ◌+◌, ◌*◌, ◌/◌, ◌%◌, ◌≡◌, refl, true, none, some, List, [], ◌∷◌, ◌++◌, if◌then◌else◌, leb,
  length,
}
use tcp_implementation_over.Common.Int.{pos}
use tcp_implementation_over.Wire.{ServerAck}
use tcp_implementation_over.Interface.{Interface}
use tcp_implementation_over.Input
use tcp_implementation_over.Input.{
  ClientInput, read_client_input, client_lines, set_client_field, buffers, fgets, c_string, chomp,
  atoi,
}
use tcp_implementation_over.Handshake
use tcp_implementation_over.Handshake.{
  Reply, answer, responded, request_file, ServerInterface, Location, locate, Confirmation,
  short_read, confirmed, await_confirmation, server_info,
}
use tcp_implementation_over.Listen.{child_address}
use tcp_implementation_over.Startup.{Call, ok}
use tcp_implementation_over.Startup.Ends.{Ends}
use tcp_implementation_over.Startup.ClientMain.{ClientLibrary, choice_of}
use tcp_implementation_over.Startup.ClientMain.Started as ClientStarted
use tcp_implementation_over.Startup.ClientMain.Succeeds.{client_main-starts}
use tcp_implementation_over.Startup.ServerChild.{
  ServerLibrary, Request, Job, answer_of, server_child,
}
use tcp_implementation_over.Startup.ServerChild.Started as ChildStarted
use tcp_implementation_over.Startup.ServerChild.Succeeds.{server_child-starts}
use tcp_implementation_over.Startup.Joined.{last_port, startup_joined}

abbrev codes : String → List ℕ
codes String.[] = []
codes (String.◌∷◌ c s) = code c ∷ codes s

abbrev line : String → List ℕ
line s = codes s ++ Input.newline ∷ []

abbrev swapped : ℕ → ℕ
swapped n = n % 256 * 256 + n / 256

abbrev swapped_long : ℕ → ℕ
swapped_long n = n % 256 * 16777216 + n / 256 % 256 * 65536 + n / 65536 % 256 * 256 + n / 16777216

abbrev client_library : ClientLibrary (List ℕ)
client_library = record {
  write_file_fd = pos 3;
  inet_pton = λ s. leb (length s) 15;
  address = λ s. 0x0100000a;
  atof = λ s. s;
  htons = swapped;
  ntohs = swapped;
  ntohl = swapped_long;
  loopback = 0x0100007f;
  succeeds = λ tr c. true;
}

abbrev unset : ClientInput (List ℕ)
unset = record {
  server_ip = [];
  server_port = pos 0;
  file_name = [];
  receiving_window_size = pos 0;
  seed_value = pos 0;
  p_data_loss = [];
  mean = pos 0;
  file_name_received = [];
}

abbrev file : List ℕ
file =
    line "10.0.0.1"
    ++ (line "4000" ++ (line "abc.txt" ++ (line "8" ++ (line "1" ++ (line "0.1" ++ line "50")))))

abbrev settings : ClientInput (List ℕ)
settings = record {
  server_ip = codes "10.0.0.1";
  server_port = pos 4000;
  file_name = codes "abc.txt";
  receiving_window_size = pos 8;
  seed_value = pos 1;
  p_data_loss = codes "0.1";
  mean = pos 50;
  file_name_received = codes "abc.txt.received";
}

settings_read :
    read_client_input client_library.inet_pton client_library.atof (some file) unset
    ≡ Input.ok settings
unfolding read_client_input client_lines set_client_field buffers fgets c_string chomp atoi
settings_read = refl

abbrev interfaces : List Interface
interfaces = record { interface_address = 0x0200000a; network_mask = 0x00ffffff } ∷ []

abbrev server_library : ServerLibrary
server_library = record {
  from_text = λ s. if str_eq s "10.0.0.1" then 0x0100000a else 0x0200000a;
  htons = swapped;
  htonl = swapped_long;
  bound_port = 0x1234;
  file_length = λ s. if str_eq s "abc.txt" then some 600 else none;
  succeeds = λ tr c. true;
}

abbrev entries : List ServerInterface
entries = record { server_ip = "10.0.0.1"; net_mask = 0x00ffffff; subnet_addr = 0x0000000a } ∷ []

abbrev asked : Request
asked = record { client_ip = "10.0.0.2"; client_port = 0x5678; file_name = "abc.txt" }

abbrev unset_ack : ServerAck
unset_ack = record { server_port = 0; sent_file_length = 0; original_recv_window = 0 }

abbrev replies : List Reply
replies = Handshake.timeout ∷ answer (answer_of server_library asked) ∷ []

got_answer : request_file unset_ack 0 0 replies ≡ responded (answer_of server_library asked) 2
unfolding request_file
got_answer = refl

-- The child reads less than a confirmation, and starts with a window of 0 all the same.
abbrev cut_short : Confirmation
cut_short = short_read

child_found :
    child_address entries
      (locate asked.client_ip (server_library.from_text asked.client_ip) 0 entries)
    ≡ some "10.0.0.1"
unfolding child_address locate
child_found = refl

window_of_0 : await_confirmation 0 0 cut_short ≡ some (0, 1)
unfolding await_confirmation
window_of_0 = refl

server_child-Ends_example :
    Ends
      (ChildStarted.IsStarted server_library entries 0 asked cut_short)
      ChildStarted.IsClosed
      (server_child server_library entries 0 asked cut_short [])
server_child-Ends_example = ChildStarted.server_child-Ends server_library entries 0 asked cut_short

abbrev child_job : Job
child_job = record {
  file_length = ServerAck.sent_file_length (answer_of server_library asked);
  client_original_window = 0;
}

child_starts :
    (tr : List Call) × (server_child server_library entries 0 asked cut_short []
      ≡ (ok child_job, tr))
child_starts = (
  _,
  server_child-starts server_library (λ tr c. refl) entries 0 asked cut_short "10.0.0.1" 0 1
      child_found window_of_0,
)

startup_joined_example :
    let started =
      ClientStarted.start_calls client_library settings
        (choice_of client_library interfaces settings)
        (answer_of server_library asked)
        2 in
    let s = ClientStarted.session_of client_library settings (answer_of server_library asked) in
    (last_port started ≡ some (swapped 0x1234))
    × (last_port child_starts.0 ≡ some (swapped 0x5678))
    × (s.consumer_length ≡ 600)
    × (s.producer_length ≡ swapped_long 600)
    × (child_job.file_length ≡ swapped_long 600)
startup_joined_example =
    startup_joined client_library server_library (some file) unset interfaces unset_ack replies 2
      (ClientStarted.session_of client_library settings (answer_of server_library asked))
      (ClientStarted.start_calls client_library settings
        (choice_of client_library interfaces settings) (answer_of server_library asked) 2)
      entries 0 asked cut_short child_job child_starts.0
      (client_main-starts client_library (λ tr c. refl) (some file) unset settings interfaces
        unset_ack (answer_of server_library asked) replies 2 settings_read got_answer)
      child_starts.1 got_answer refl refl
