-- ===== src/Config/Sample.antt =====
-- A value of the JSON interface, for the examples: a list of numbers that holds the entries one
-- after the other. It shows that what is relied on can be met.
use remote_monitoring_tool.Prelude.{
  ℕ, zero, suc, ◌≡◌, refl, ap, ◌∙◌, true, List, [], ◌∷◌, ◌++◌, Bytes, codes, All, length, take,
  drop, take-length-append, drop-length-append,
}
use remote_monitoring_tool.Result.{Result, ok, err, parse_failed, ◌>>=◌}
use remote_monitoring_tool.Config.{ConfigEntry, Json}

abbrev numbers : ConfigEntry → Bytes
numbers c = c.cpu_usage ∷ c.mem_usage ∷ c.disk_usage ∷ c.network_usage ∷ []

pub dump_all : List ConfigEntry → Bytes
dump_all [] = []
dump_all (c ∷ cs) = length c.process_name ∷ (c.process_name ++ (numbers c ++ dump_all cs))

abbrev with_numbers :
    Bytes → Bytes → (Bytes → Result (List ConfigEntry)) → Result (List ConfigEntry)
with_numbers name (cpu ∷ mem ∷ disk ∷ network ∷ bytes) parse_rest = do
  rest ← parse_rest bytes
  ok (
      record {
        process_name = name;
        cpu_usage = cpu;
        mem_usage = mem;
        disk_usage = disk;
        network_usage = network;
      }
      ∷ rest)
with_numbers name other parse_rest = err parse_failed

parse_count : ℕ → Bytes → Result (List ConfigEntry)
parse_count zero bytes = ok []
parse_count (suc n) [] = err parse_failed
parse_count (suc n) (size ∷ bytes) =
    with_numbers (take size bytes) (drop size bytes) (parse_count n)

pub parse_all : Bytes → Result (List ConfigEntry)
parse_all [] = err parse_failed
parse_all (n ∷ bytes) = parse_count n bytes

parse_count-dump_all : (cs : List ConfigEntry) → parse_count (length cs) (dump_all cs) ≡ ok cs
unfolding parse_count dump_all
parse_count-dump_all [] = refl
parse_count-dump_all (c ∷ cs) = rw (
  take-length-append c.process_name (numbers c ++ dump_all cs),
  drop-length-append c.process_name (numbers c ++ dump_all cs),
  parse_count-dump_all cs,
)

pub all_valid : (cs : List ConfigEntry) → All (λ c. true ≡ true) cs
all_valid [] = tt
all_valid (c ∷ cs) = (refl, all_valid cs)

pub parse_all-dump :
    (cs : List ConfigEntry) (text : Bytes)
    → ok (length cs ∷ dump_all cs) ≡ ok text
    → parse_all text ≡ ok cs
unfolding parse_all
parse_all-dump cs text e = ap parse_all (text_is e) ∙ parse_count-dump_all cs
  where
    text_is : ok (length cs ∷ dump_all cs) ≡ ok text → text ≡ length cs ∷ dump_all cs
    text_is p = cc

unfoldable pub sample_json : Json
unfolding parse_all parse_count dump_all
sample_json = record {
  valid_name = λ name. true;
  dump = λ cs. ok (length cs ∷ dump_all cs);
  parse = parse_all;
  dump_valid = λ cs h. (length cs ∷ dump_all cs, refl);
  parse-dump = parse_all-dump;
  parse_valid = λ cs text e. all_valid cs;
}

abbrev pub chrome : ConfigEntry
chrome = record {
  process_name = codes "chrome.exe";
  cpu_usage = 10;
  mem_usage = 200;
  disk_usage = 1;
  network_usage = 500;
}

-- The text of a file with one entry.
abbrev pub sample_text : Bytes
sample_text = 1 ∷ 10 ∷ (codes "chrome.exe" ++ 10 ∷ 200 ∷ 1 ∷ 500 ∷ [])

pub parse-sample_text : sample_json.parse sample_text ≡ ok (chrome ∷ [])
unfolding sample_json parse_all parse_count
parse-sample_text = refl

pub parse_no_text : sample_json.parse [] ≡ err parse_failed
unfolding sample_json parse_all
parse_no_text = refl
