-- ===== src/Lib.antt =====
-- better-firewall, a firewall front end for nftables in the manner of ufw.
--
-- The program reads a command, changes a stored state (rules of two address families, policies,
-- sets, threat bans) and hands it to a backend, which compiles it to kernel rules. This library models
-- how commands change the state, and how it is compiled:
--
-- - Rule, Rule/Tuple, Rule/Keys: internal/rule/rule.go. A rule is a record; `match` (Match) and
--   `same_tuple` (sameTuple) compare rules, `tuple_key` (TupleKey) and `app_tuple` (AppTuple) give
--   the keys by which rules are grouped.
-- - Store: the types of internal/store/store.go and its Defaults.
-- - Engine: setRuleEngine of internal/cli/commands_rules.go. Its loop is `walk` over the record
--   `Walk` of its variables, a round being `place` (the insertion), `tally` and `judge` (the
--   switch); `finish` is what follows the loop.
-- - Commands: runRuleOp with applyDual, applyHalf, findOtherPosition, deleteByNumber and
--   sweepExpired of the same file. An error is a value of `Error`; the empty text by which the
--   source passes errors on is that error. `kernel6` is ipv6Available, `live` is Env.live, and the
--   list `rules` is what expandAppRules gives.
-- - Numbering: markFamilies, dedupedCount and ruleByNumber of internal/cli/status.go.
-- - Check: the warnings of `check` on the stored rules (cmdCheck of internal/cli/commands_ext.go).
--   Check/Packets says which packets a rule is for, with the members of sets and the names of
--   interfaces as parameters; Check/Prefixes and Check/Shadows are proofs.
-- - Services: internal/services/services.go; the table is an association list, computed from the
--   lines of the services file.
-- - Ports: port expressions in internal/cli/parser.go, internal/appprof/appprof.go,
--   internal/cli/commands_app.go and internal/cli/status.go.
-- - Parser: helpers of internal/cli/parser.go on tokens, protocols, ports and expiry durations.
-- - Net: what the program uses of net/netip. Addresses are numbers; their text form is the record
--   `NetText` of operations with the laws that the package's documentation states.
-- - Protect/Threats, Protect/Polling: threat bans and the CrowdSec loop of
--   internal/cli/commands_protect.go with the types of internal/protect/types.go. One tick of
--   pollCrowdSec is `poll` on a `Round`, which says what the server, the lock, the file, the clock
--   and the commit do; time.ParseDuration is a parameter.
-- - Protect/Detector: internal/protect/detector.go. Times are nanoseconds, the map of failures is an
--   association list, and FindStringSubmatch is a parameter.
-- - Protect/Config: parsePrefix and PollIntervalDuration of internal/protect/config.go.
-- - Rule/Icmp: internal/rule/icmp.go.
-- - Nft: the compilation of a state to nftables, internal/backend/nft/compile.go. Its code is in
--   Nft/Expr (expressions, chains and rules of the kernel), Nft/Match (the expressions that match),
--   Nft/Ifaces (interface names, with the panic of appendIfaceMatch as an error of its own),
--   Nft/Intervals and Nft/Sets (sets of addresses), Nft/Compiled (the ruleset under construction,
--   passed from step to step), Nft/Rules and Nft/UserRules (compileRule), Nft/Fixed (the rules that do
--   not depend on the user's), Nft/Nat (compileNAT) and Nft/Compile (Compile). The proofs are in
--   Nft/Frame, Nft/Closed and Nft/Own (chains and jumps), Nft/Ids (set ids), Nft/PortMatch (ports),
--   Nft/Active and Nft/Swept (rules and bans in force), Nft/Accepts (when compilation succeeds) and the
--   child modules of Nft/Intervals, Nft/Sets and Nft/Nat. The clock and the values that the configuration files give
--   are arguments; the pointers of the source to tables, chains and sets are their names and ids.
-- - Prelude: numbers, tests, lists and texts. Samples: data, runs and applications of the theorems.
--
-- Ports are uint16 in the source and natural numbers here; the conversion uint16(n) is written out
-- as a remainder. Other integers are of 64 bits in the source and none of the operations comes near
-- that bound; strconv.Atoi keeps its bound. All loops are structural recursion on a list: no fuel is
-- used. Texts are sequences of characters; the operations modelled look only at ASCII ones, but
-- for interface names, which are taken as bytes in UTF-8.
--
-- Not modelled: reading and writing of files, the lock, prompts and output, parseRuleArgs
-- itself, the status texts, the rendering and sending of a compiled ruleset, import and export,
-- reports, scripts; the tables of ready expressions and the arenas of the compiler, which save
-- allocations.
pub mod Prelude
pub mod Rule
pub mod Store
pub mod Engine
pub mod Services
pub mod Ports
pub mod Numbering
pub mod Parser
pub mod Commands
pub mod Net
pub mod Check
pub mod Nft
pub mod Protect
pub mod Samples
