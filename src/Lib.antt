-- ===== src/Lib.antt =====
-- ovn-scale-test: a rally plugin (rally_ovs/plugins/ovs) that builds large OVN topologies on hosts that
-- it reaches by ssh, and measures them.
--
-- The parts, and how they interact. A scenario asks for a client of a node; the node hands out one
-- object per kind, from a cache, so all callers share its state. The client turns a method into a
-- command of ovn-nbctl, ovn-sbctl, ovs-vsctl, ovs-ofctl or a shell; in batch mode it queues commands,
-- and a flush sends them as one script. The scenarios create switches, routers, ports and sandboxes
-- in batches and bind the ports to the sandboxes.
--
-- Paths are those below rally_ovs/plugins/ovs, but for ansible/library.
--
--   Client, Client/*         ovsclients_impl.py: the state of a client, and the five classes. Nbctl has
--                            run and flush, Nbctl/Commands the commands, Nbctl/Queries those that read.
--   Client/Parse, Values     ovsclients.py get_lswitch_info, parse_lswitch_list, set_colval_args, and
--                            utils.py py_to_val.
--   World                    ovsclients.py OvsClient.__call__, Clients, ClientsMixin: the cache.
--   Mac                      utils.py get_random_mac.
--   Ovnclients, Ovnclients/* ovnclients.py OvnClientMixin. Batches has the loop that its methods share.
--   Scenario/*               scenarios/ovn.py (Lports, Acls, Bind, Unbind, Wait, Ping, Conns, Routed),
--                            ovn_igmp.py (Igmp), sandbox.py and ovn_sandbox.py (Sandboxes), ovn_nb.py
--                            (Northbound), ovn_network.py (Network), ovn_fake_multinode.py (Multinode).
--   Contexts                 context/: what is set up before the scenarios.
--   Deploy/*                 utils.py get_sandboxes, ansible/library/generate_chassis_ip_pairs.py, and
--                            deployment/, its engines and the provider (Engines).
--   Prelude, Python          lists, numbers and texts; the Python that the code uses: exceptions and
--                            state (Exec), dicts, splitting and formatting.
--   Env                      what the code calls and does not implement: ssh, netaddr, random, and the
--                            order of the dicts that Python/Dict names.
--   Tests                    concrete inputs.
--
-- A method is a function from the state to its result or exception and the state after it, so what was
-- done before an exception stays done. The state of a client's method is the client with what has
-- happened on the network (Session); that of a scenario has the caches of all nodes (World); that of
-- an engine has the commands that it has run and the resources that it has recorded (Site), and that of
-- the methods on sandboxes has the records of the farms besides the caches (Depot).
--
-- What a flush sends is stated by a script that is written down apart from the code (Client/Nbctl/Script):
-- how it gets to where ovn-nbctl is, one call, and the commands. With another install method than the
-- three that the code knows, or with no sandbox set, a flush sends an empty script; the theorems on what
-- is sent exclude this by a hypothesis.
--
-- Fuel: the slices of `_bind_ports` have as much as there are ports, and each slice takes one; the
-- rounds of `_create_sandbox` have as much as there are sandboxes, and each round but the last takes
-- one; the pings of `_ping_port` have as much as the caller gives, which is enough once the time is
-- over after so many; a printed number has as much as its value and one, and each digit divides it. A
-- file of theorems stands below the file whose definitions they are about.
--
-- Not modelled: the database of rally (what it returns is an argument, but for the records of the
-- sandboxes, which are a part of the state), the command line, which is calls of rally, the reports
-- that scenarios add to the output, and random pauses. The clock of a ping is a parameter; other pauses are events of the trace.
pub mod Client
pub mod Contexts
pub mod Deploy
pub mod Env
pub mod Mac
pub mod Ovnclients
pub mod Prelude
pub mod Python
pub mod Scenario
pub mod Tests
pub mod Topology
pub mod Values
pub mod World
