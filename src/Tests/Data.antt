-- ===== src/Tests/Data.antt =====
-- Two monitored urls, an entry of the first and what the libraries answer on both, and two weeks of one.
use vigil_sre.Prelude.{
  ℕ, ◌-◌, String, true, false, ◌&&◌, Option, none, some, [], ◌∷◌, str_eq, leb, if◌then◌else◌,
}
use vigil_sre.Targets.Window.{TimeWindow}
use vigil_sre.Targets.Url.{Parsed, Python}
use vigil_sre.Targets.Entry.{Entry, Env}
use vigil_sre.Diagnostics.Trend

abbrev pub api : String
api = "https://api.example.org"

abbrev pub shop : String
shop = "https://shop.example.org"

abbrev pub last_week : Trend.Window
last_week = record { p95 = some 200000; samples = 95; total = 100 }

abbrev pub this_week : Trend.Window
this_week = record { p95 = some 320000; samples = 98; total = 100 }

abbrev pub ascii_digit : ℕ → Option ℕ
ascii_digit c = if leb 48 c && leb c 57 then some (c - 48) else none

abbrev pub api_parsed : Parsed
api_parsed = record {
  scheme = "https";
  netloc = "api.example.org";
  path = "";
  params = "";
  query = "";
  fragment = "";
  endpoint = some (some "api.example.org", none);
  username = none;
  password = none;
}

abbrev pub python : Python
python = record {
  urlparse = λ s.
      if str_eq s api
      then some api_parsed
      else if str_eq s shop
      then some (record api_parsed {
        netloc = "shop.example.org";
        endpoint = some (some "shop.example.org", none);
      })
      else none;
  parameters = λ s. [];
  lower = λ s. s;
  is_domain = λ s. true;
  digit = ascii_digit;
}

abbrev pub night : TimeWindow
night = record { start = "22:00"; end = "02:00"; days = some (0 ∷ []) }

abbrev pub api_entry : Entry
api_entry = record {
  url = api;
  expect_substring = some "${HEALTH_TOKEN}";
  expected_status = some 204;
  timeout_s = none;
  degraded_ttfb_ms = none;
  degraded_rtt_ms = none;
  degraded_backend_ms = none;
  maintenance = some (night ∷ []);
  remind = false;
  trend_alerts = true;
}

abbrev pub api_env : Env
api_env name =
    if str_eq name "API_WRITE_TOKEN"
    then some "t0ken"
    else if str_eq name "HEALTH_TOKEN"
    then some "abc"
    else none
