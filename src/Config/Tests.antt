-- ===== src/Config/Tests.antt =====
-- Tests of the configuration.
use griefer_security_platfor.Prelude.{
  ◌≡◌, refl, true, false, none, some, List, [], ◌∷◌, ◌==◌, if◌then◌else◌,
}
use griefer_security_platfor.Prelude.Int.{pos}
use griefer_security_platfor.Prelude.Result.{ok, err}
use griefer_security_platfor.Prelude.Text.{ascii, to_lower}
use griefer_security_platfor.Config.{
  Config, Parsers, Warning, public_without_authentication, storage_in_memory, public_bind_refused,
  redacted, validate,
}
use griefer_security_platfor.Config.Accepted.{IsSafe, validate-IsSafe}
use griefer_security_platfor.Samples.{whole_numbers}

abbrev two_addresses : Parsers
two_addresses = record {
  split_host_port = λ addr.
      if addr == "0.0.0.0:8080"
      then some ("0.0.0.0", "8080")
      else if addr == "127.0.0.1:8080"
      then some ("127.0.0.1", "8080")
      else none;
  is_number = λ port. port == "8080";
  parse_ip = λ host.
      if host == "127.0.0.1" then some true else if host == "0.0.0.0" then some false else none;
  equal_fold = λ a b. a == b;
}

abbrev lab : Config
lab = record {
  env = "local";
  http = record {
    addr = "0.0.0.0:8080";
    read_timeout = pos 10;
    write_timeout = pos 30;
    idle_timeout = pos 120;
    shutdown_timeout = pos 15;
    max_request_bytes = pos 1048576;
    max_batch_events = pos 500;
    rate_limit_rps = 50;
    rate_limit_burst = pos 100;
    allow_public_bind = true;
  };
  postgres = record {
    enabled = false;
    dsn = "";
    max_open_conns = pos 20;
    max_idle_conns = pos 5;
    conn_max_lifetime = pos 3600;
  };
  nats = record { enabled = false; url = ""; stream = ""; subject = ""; user = ""; password = "" };
  opa = record { url = ""; decision_path = ""; timeout = pos 3; fail_closed = true };
  log = record { level = "INFO"; format = "json" };
  response = record {
    mode = "simulate";
    allow_real_actions = false;
    synthetic_data_only = true;
    seed_synthetic_demo = false;
  };
  auth = record { internal_api_token = "" };
}

abbrev lab_warnings : List Warning
lab_warnings = public_without_authentication "0.0.0.0:8080" ∷ storage_in_memory ∷ []

lab_accepted : validate two_addresses whole_numbers ascii lab ≡ ok lab_warnings
unfolding validate to_lower
lab_accepted = refl

closed_refused :
    validate two_addresses whole_numbers ascii
      (record lab { http = record lab.http { allow_public_bind = false } })
    ≡ err (public_bind_refused "0.0.0.0:8080")
unfolding validate
closed_refused = refl

token_redacted :
    (redacted
      (record lab { auth = record { internal_api_token = "s3cret" } })).auth.internal_api_token
    ≡ "[redacted]"
unfolding redacted
token_redacted = refl

validate-IsSafe_example : IsSafe two_addresses whole_numbers ascii lab lab_warnings
validate-IsSafe_example =
    validate-IsSafe two_addresses whole_numbers ascii lab lab_warnings lab_accepted
