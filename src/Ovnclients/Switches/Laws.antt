-- ===== src/Ovnclients/Switches/Laws.antt =====
-- What `_create_lswitches` asks of the database.
use ovn_scale_test.Prelude.{
  ℕ, ◌+◌, ◌-◌, ◌/◌, ◌<◌, true, List, [], ◌∷◌, map, Option, none, some, String, ◌≡◌, refl, arith,
  range, length, All,
}
use ovn_scale_test.Python.Text.{concat, str}
use ovn_scale_test.Python.Exec.{ok}
use ovn_scale_test.Env.{Env, IpNetwork, Reliable, draw}
use ovn_scale_test.Topology.{Lswitch}
use ovn_scale_test.Client.{Client, Session, queue, enable_batch_mode}
use ovn_scale_test.Client.Nbctl.Queue.{Callable, batch_text, queued, for_each-batched}
use ovn_scale_test.Client.Nbctl.Commands.{call, call-batched, lswitch_add, config_arg}
use ovn_scale_test.Ovnclients.Batches.Laws.{Batched, all_values, all_texts}
use ovn_scale_test.Ovnclients.Batches.Delivery.{Delivers, Delivers-step, in_batches-Delivers}
use ovn_scale_test.Python.Dict.{default}
use ovn_scale_test.Ovnclients.{Mixin, get_ovn_controller}
use ovn_scale_test.Ovnclients.Switches.{
  LswitchArgs, create_lswitch, mcast_config, name_lswitch, parse_start_cidr, create_lswitches,
}

abbrev pub set_text : String → String × String → String
set_text name (key, value) =
    batch_text "set" []
      ("Logical_Switch" ∷ name ∷ concat ("other_config:" ∷ key ∷ "=\"" ∷ value ∷ "\"" ∷ []) ∷ [])

-- The three settings of a switch.
abbrev pub settings : LswitchArgs → List (String × String)
settings args =
    ("mcast_snoop", default "false" args.mcast_snoop)
    ∷ ("mcast_idle_timeout", str (default 300 args.mcast_idle_timeout))
    ∷ ("mcast_table_size", str (default 2048 args.mcast_table_size))
    ∷ []

-- The commands that make one switch: the settings come in the order that a dict has.
abbrev pub lswitch_texts : Env → LswitchArgs → String → List String
lswitch_texts env args name =
    batch_text "ls-add" [] (name ∷ []) ∷ map (set_text name) (env.dict_items (settings args))

lswitch_add-batched :
    (args : LswitchArgs) (name : String) (s : Session)
    → s.client.batch_mode ≡ true
    → lswitch_add name (mcast_config args) s
      ≡ (ok (record { name = name; cidr = none }), queued s (lswitch_texts s.net.env args name))
unfolding lswitch_add mcast_config config_arg
lswitch_add-batched args name s b = rw (
  call-batched "ls-add" [] (name ∷ []) s b,
  for_each-batched (set_text name)
      (λ kv. call "set" [] ("Logical_Switch" ∷ name ∷ config_arg kv ∷ []))
      (λ kv t c. call-batched "set" [] ("Logical_Switch" ∷ name ∷ config_arg kv ∷ []) t c)
      (s.net.env.dict_items (settings args)) (batch_text "ls-add" [] (name ∷ []) ∷ []) s b,
)

-- The switch of a network; netaddr has one wherever the theorems below use it.
abbrev pub lswitch_of : Env → Option IpNetwork → Lswitch
lswitch_of env none = record { name = ""; cidr = none }
lswitch_of env (some n) = record {
  name = concat ("lswitch_" ∷ env.show_network n ∷ []);
  cidr = some n;
}

-- The name and the CIDR of the i-th switch, after `d` draws.
abbrev pub lswitch_at : Env → Option IpNetwork → ℕ → ℕ → Lswitch
lswitch_at env none i d = record {
  name = env.random_name (d + 1) "lswitch_XXXXXX_XXXXXX";
  cidr = none;
}
lswitch_at env (some start) i d = lswitch_of env (env.next_network start i)

abbrev pub lswitches_texts : Env → LswitchArgs → Option IpNetwork → ℕ → ℕ → List String
lswitches_texts env args start i d = lswitch_texts env args (lswitch_at env start i d).name

-- The i-th network after the start is there.
abbrev pub HasNetwork : Env → Option IpNetwork → ℕ → Type 0
HasNetwork env none i = Unit
HasNetwork env (some start) i = (n : IpNetwork) × (env.next_network start i ≡ some n)

-- A name is drawn for each switch, and two where there is no CIDR to name it by.
abbrev pub draws_each : Option IpNetwork → ℕ
draws_each none = 2
draws_each (some start) = 1

add_one_one : (n : ℕ) → n + 1 + 1 ≡ n + 2
add_one_one n = omega arith

create_lswitch-Batched :
    (env : Env) (args : LswitchArgs) (start : Option IpNetwork)
    → Batched env
        (HasNetwork env start)
        (create_lswitch args start)
        (lswitch_at env start)
        (lswitches_texts env args start)
        (draws_each start)
unfolding create_lswitch name_lswitch draw
create_lswitch-Batched env args none = record {
  at = λ i s p b e. rw (← e) (
      rw (
        lswitch_add-batched args (s.net.env.random_name (s.net.draws + 1) "lswitch_XXXXXX_XXXXXX")
            (record s { net = record (s.net) { draws = s.net.draws + 1 + 1 } }) b,
        add_one_one s.net.draws,
      ));
  some_text = λ i d p. cc;
}
create_lswitch-Batched env args (some start) = record {
  at = λ i s p b e.
      let found : s.net.env.next_network start i ≡ some p.0 = rw e p.1 in
      rw (← e) (
        rw (
          found,
          lswitch_add-batched args (concat ("lswitch_" ∷ s.net.env.show_network p.0 ∷ []))
              (record s { net = record (s.net) { draws = s.net.draws + 1 } }) b,
        ));
  some_text = λ i d p. cc;
}

-- The client as `_create_lswitches` and the other batched methods set it up.
abbrev pub ready : Mixin → Client → Client
ready m c = record c {
  sandbox = some "controller-sandbox";
  install_method = m.install_method;
  host_container = m.host_container;
  socket = m.daemon_socket;
  log_cmd = m.log_cmd;
  batch_mode = true;
}

-- How many switches there are to make, and how many go into a script.
abbrev pub amount_of : LswitchArgs → Option ℕ → ℕ
amount_of args num_switches = default (default 1 args.amount) num_switches

abbrev pub batch_of : LswitchArgs → Option ℕ → ℕ
batch_of args num_switches = default (amount_of args num_switches) args.batch

-- Where no command fails, the install method is one that ovn-nbctl can be called by ("sandbox",
-- "docker" or "physical"), the queue is empty, the CIDR is one, netaddr has a network for each
-- switch and the batch is positive, `_create_lswitches` returns the switches in order and
-- delivers the commands of each of them, `ls-add` and the three settings as the `items` of the
-- dict gives them, in order; each script calls ovn-nbctl once with a part of them that is not
-- empty, there is one script per batch, and an empty queue and batch mode off are left.
pub create_lswitches-Delivers :
    (m : Mixin) (args : LswitchArgs) (num_switches : Option ℕ) (start : Option IpNetwork)
    (s : Session)
    → Reliable s.net.env
    → Callable m.install_method
    → parse_start_cidr args.start_cidr s ≡ (ok start, s)
    → All (HasNetwork s.net.env start) (range (amount_of args num_switches))
    → 0 < batch_of args num_switches
    → queue s.client ≡ []
    → Delivers
        (create_lswitches m args num_switches)
        s
        (ready m s.client)
        (all_values
          (lswitch_at s.net.env start)
          (lswitches_texts s.net.env args start)
          (draws_each start)
          (range (amount_of args num_switches))
          s.net.draws)
        (all_texts
          (lswitch_at s.net.env start)
          (lswitches_texts s.net.env args start)
          (draws_each start)
          (range (amount_of args num_switches))
          s.net.draws)
        ((length (range (amount_of args num_switches)) + batch_of args num_switches - 1)
          / batch_of args num_switches)
unfolding create_lswitches get_ovn_controller enable_batch_mode
create_lswitches-Delivers m args num start s reliable known parsed found pos q =
    Delivers-step (rw parsed) (
      in_batches-Delivers s.net.env (HasNetwork s.net.env start) (create_lswitch args start)
        (lswitch_at s.net.env start) (lswitches_texts s.net.env args start) (draws_each start)
        (create_lswitch-Batched s.net.env args start) reliable (batch_of args num)
        (range (amount_of args num)) (record s { client = ready m s.client }) pos found refl refl
        (refl, known) q)
