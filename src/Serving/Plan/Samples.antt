-- ===== src/Serving/Plan/Samples.antt =====
-- Three offers, a host with two gpus, and numbers in thousandths for floats.
use Prim.Native.Nat.{◌+◌, ◌-◌, ◌*◌, ◌/◌}
use microtensor_subnet.Base.{ℕ, String, true, false, [], ◌∷◌, Option, some, ltb, leb, eqb, List}
use microtensor_subnet.Base.Int.{pos}
use microtensor_subnet.Base.Dict.{Dict}
use microtensor_subnet.Base.Floats.{Floats}
use microtensor_subnet.Serving.Plan.{Offer, Capacity, Policy}
use microtensor_subnet.Serving.Plan.Assign.{Held}

-- A number x is 1000 * x; the opposite is taken from a bound, which keeps the order of the program.
abbrev pub thousandths : Floats ℕ
thousandths = record {
  of_ℕ = λ n. 1000 * n;
  add = λ a b. a + b;
  sub = λ a b. a - b;
  mul = λ a b. a * b / 1000;
  div = λ a b. a * 1000 / b;
  neg = λ a. 1000000000 - a;
  lt = ltb;
  le = leb;
  eq = eqb;
  floor = λ a. a / 1000;
  round = λ a. (a + 500) / 1000;
  keep_margin = 1500;
}

abbrev pub offer : String → String → ℕ → ℕ → Offer ℕ
offer model kind wanted vram_gb = record {
  model = model;
  artifact_digest = "abcdef0123";
  arena = "sql";
  task = "";
  hardware_class = "gpu_24gb";
  vram_gb = vram_gb;
  ttft_ms = 0;
  tpot_ms = 0;
  servable = true;
  wanted = wanted;
  cold = false;
  operators_online = pos 0;
  requests = pos 0;
  kind = kind;
  format = "gguf";
  engine = "llama";
  context = pos 4096;
  concurrency = 4;
  verifiable = true;
  family = "qwen";
  licence = "";
  licence_url = "";
}

abbrev pub rows : List (Offer ℕ)
rows =
    offer "sys" "certified" 3000 16000
    ∷ offer "gen" "general" 2000 20000
    ∷ offer "big" "certified" 9000 80000
    ∷ []

abbrev pub capacity : Capacity ℕ
capacity = record {
  gpus = "0" ∷ "1" ∷ [];
  gpu_gb = 24000;
  hardware_class = "gpu_24gb";
  images = "llama" ∷ [];
}

abbrev pub policy : Policy
policy = record {
  arenas = [];
  exclude = [];
  kinds = [];
  include = [];
  families = [];
  accept_licences = true;
}

abbrev pub as_is : String → String
as_is text = text

abbrev pub pins : Option (Dict String)
pins = some (("sys", "abcdef0") ∷ ("gen", "abcdef0") ∷ ("big", "0000000") ∷ [])

-- The gateway would like the general model on gpu 0.
abbrev pub preferences : Dict String
preferences = ("0", "gen") ∷ []

abbrev pub nothing_held : Held
nothing_held = []
