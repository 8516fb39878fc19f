-- ===== src/Samples/Packages.antt =====
-- Commands, names and the store at concrete inputs.
use aimee_module_sandbox.Base.{true, false, none, some, List, [], ◌∷◌, ◌≡◌, refl, arith, ◌↔◌, All}
use aimee_module_sandbox.GoString.{Bytes, codes, equal, one_of, has_prefix, index_byte}
use aimee_module_sandbox.Learned.Grammar.{
  is_alnum, is_package_byte, package_bytes_valid, package_valid, IsPackageName, package_valid_iff,
}
use aimee_module_sandbox.Learned.Tokens.{
  is_operator, is_blank, is_delim, skip_blanks, word, delimiter, append_word, after_word,
  tokens_loop, tokenize,
}
use aimee_module_sandbox.Learned.Tokens.Shape.{IsToken, joined, without_blanks, tokenize_lem}
use aimee_module_sandbox.Learned.Parse.{
  variable_bytes, is_env_assign, apt_option_takes_arg, contains, package_name, add_package,
  argument, arguments, segment_start, next_segment, segment, round, segments, parse_apt, learn_max,
}
use aimee_module_sandbox.Learned.Parse.Safe.{IsResult, parse_apt-IsResult}
use aimee_module_sandbox.Learned.Parse.Fuel.{Runs, segments-Runs}
use aimee_module_sandbox.Learned.Store.{
  Codec, Faults, Disk, Document, recorded, panicked, names_of, lookup, union, read, read_sidecar,
  replace, record_names, load,
}
use aimee_module_sandbox.Learned.Store.Loaded.{IsLoaded, load-IsLoaded}
use aimee_module_sandbox.Learned.Store.Persisted.{
  grown, added, IsRecorded, record_names-IsRecorded, IsDecodable, read-record_names,
}

package_valid_iff_example :
    (package_valid (codes "libc6-dev") ≡ true) ↔ IsPackageName (codes "libc6-dev")
package_valid_iff_example = package_valid_iff (codes "libc6-dev")

abbrev command : Bytes
command = codes "sudo apt-get install -y curl jq=1.6 && apt install curl ./x"

abbrev curl : Bytes
curl = codes "curl"

abbrev jq : Bytes
jq = codes "jq"

command_parsed : parse_apt learn_max command ≡ curl ∷ jq ∷ []
unfolding parse_apt segments round segment next_segment segment_start arguments argument add_package
    package_name contains apt_option_takes_arg is_env_assign variable_bytes tokenize tokens_loop
    after_word append_word delimiter word skip_blanks is_delim is_blank is_operator package_valid
    package_bytes_valid is_package_byte is_alnum equal one_of has_prefix index_byte
command_parsed = refl

tokenize_lem_example :
    All IsToken (tokenize command) × (joined (tokenize command) ≡ without_blanks command)
tokenize_lem_example = tokenize_lem command

parse_apt-IsResult_example : IsResult learn_max (parse_apt learn_max command)
parse_apt-IsResult_example = parse_apt-IsResult learn_max command

abbrev apt_tokens : List Bytes
apt_tokens = codes "install" ∷ curl ∷ []

segments-Runs_example :
    Runs 5 [] none (codes "apt" ∷ apt_tokens) (segments 5 7 [] none (codes "apt" ∷ apt_tokens))
segments-Runs_example = segments-Runs 5 7 [] none (codes "apt" ∷ apt_tokens) (omega arith)

abbrev repo : Bytes
repo = codes "/r"

-- A codec whose one text is the document of one root with one package.
abbrev one_package : Document
one_package = (repo, curl ∷ []) ∷ []

abbrev one_text : Codec
one_text = record { unmarshal = λ s. some (some one_package); marshal = λ d. some (codes "{}") }

abbrev working : Faults
working = record {
  stat = false;
  read_file = false;
  create_temp = false;
  write = false;
  close = false;
  rename = false;
  remove = false;
}

abbrev empty_disk : Disk
empty_disk = record { sidecar = none; temps = 0 }

abbrev written_disk : Disk
written_disk = record { sidecar = some (codes "{}"); temps = 0 }

load-IsLoaded_example :
    IsLoaded learn_max
      (names_of (read one_text working written_disk) repo)
      (load one_text working written_disk repo learn_max)
load-IsLoaded_example = load-IsLoaded one_text working written_disk repo learn_max (omega arith)

record_names-IsRecorded_example :
    IsRecorded one_text working empty_disk repo
      (curl ∷ [])
      (added one_text working empty_disk repo (curl ∷ []))
      (grown one_text working empty_disk repo (curl ∷ []))
      (record_names one_text working empty_disk repo (curl ∷ []))
record_names-IsRecorded_example =
    record_names-IsRecorded one_text working empty_disk repo (curl ∷ [])

curl_recorded :
    record_names one_text working empty_disk repo (curl ∷ []) ≡ (recorded 1, written_disk)
unfolding record_names replace read read_sidecar union names_of lookup contains package_valid
    package_bytes_valid is_package_byte is_alnum equal one_of
curl_recorded = refl

curl-IsDecodable :
    IsDecodable one_text ((repo, grown one_text working empty_disk repo (curl ∷ [])) ∷ [])
unfolding read read_sidecar union names_of lookup contains package_valid package_bytes_valid
    is_package_byte is_alnum equal one_of
curl-IsDecodable encoded e = (one_package, refl, λ root. refl)

nothing_stored : read one_text working empty_disk ≡ some []
unfolding read read_sidecar
nothing_stored = refl

read-record_names_example :
    (names_of (read one_text working written_disk) repo
      ≡ grown one_text working empty_disk repo (curl ∷ []))
    × ((other : Bytes)
        → equal repo other ≡ false
        → names_of (read one_text working written_disk) other
          ≡ names_of (read one_text working empty_disk) other)
read-record_names_example =
    read-record_names one_text working working empty_disk written_disk repo (curl ∷ []) 0 []
      nothing_stored curl-IsDecodable curl_recorded (omega arith, omega arith) refl refl

-- A sidecar that decodes as the nil map.
abbrev null_text : Codec
null_text = record { unmarshal = λ s. some none; marshal = λ d. none }

null_panics :
    record_names null_text working written_disk repo (curl ∷ []) ≡ (panicked, written_disk)
unfolding record_names read read_sidecar union names_of lookup contains package_valid
    package_bytes_valid is_package_byte is_alnum equal one_of
null_panics = refl
