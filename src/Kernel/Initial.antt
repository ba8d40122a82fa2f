-- ===== src/Kernel/Initial.antt =====
-- `State::default()` of crates/kernel/src/state.rs, and the fold of a journal over it.
use peras.Prelude.{false, none, List, [], ◌∷◌}
use peras.Proto.Event.{Envelope}
use peras.Kernel.Data.{Externals, State, TGate}
use peras.Kernel.Evolve.{evolve}

abbrev pub initial : State
initial = record {
  session = none;
  profile_hash = [];
  config = none;
  m = none;
  caps = none;
  head = none;
  pending_config = none;
  epoch = 0;
  next_n = 0;
  issued = [];
  held = [];
  paused = false;
  next_seq = 0;
  index = record { frozen = []; recent = [] };
  ops = record { full = []; last = [] };
  abandoned = [];
  context = [];
  usage_basis = none;
  est_since = 0;
  turn = none;
  turns = 0;
  mailbox = [];
  queue = [];
  silent = [];
  snaps = [];
  taint = record { tainted = false; sources = []; labels = []; private_read = false };
  continuations = 0;
  tokens_used = 0;
  cost_used = 0;
  checkpoints = record { full = []; last = [] };
  questions = [];
  destinations = [];
  restoring = none;
  session_gate = TGate.unset;
  irreversible = record { full = []; last = [] };
  erased = [];
  children = [];
  instr = [];
  instr_pending = [];
}

-- The state after the events of a journal, oldest first.
unfoldable pub fold : Externals → List Envelope → State → State
fold x [] s = s
fold x (ev ∷ evs) s = fold x evs (evolve x ev s)
