-- ===== src/Lib.antt =====
-- AlertMind: an assistant that helps a security team triage alerts, and the operator tools around its
-- server. The development models the Python code that decides what may leave the machine, how a provider is
-- asked, what an answer of a model is worth, what the operator tools read from the server, and what a
-- rollback on it may do.
--
-- The parts, and the files that model them:
--
-- Text, Text/Trim, Text/Split, Text/Laws, Text/Sets, Platform, Result, Json, Json/Dict, Json/Equal,
-- Json/Parsed, Dumps, Regex: what the code takes from Python. A `str` or a `bytes` is a list of numbers, a
-- `dict` a list of fields in insertion order, `json.dumps` a printer with a style for each way in which the
-- code calls it, `re` a matcher that lists the ends of a match in the order in which backtracking finds them.
-- The Unicode database beyond ASCII, the reading and the printing of a float, SHA-256, HMAC and the JSON
-- decoder are fields of `Platform`, and the code works for each of its values. An exception with a fixed code
-- is the `err` of `Result`.
--
-- assistant/redact.py is Assistant/Redact: `_RULES` in Redact/Rules, the recursion of `_redact_node` that
-- `redact_alert` and `redact_alert_with_trace` share, with the trace passed along. The key of
-- `ALERTMIND_TRACE_HMAC_KEY` is an argument.
--
-- assistant/injection.py is Assistant/Injection: `_RULES` in Injection/Rules, `_walk`, `scan_alert`, and
-- the gate `contains_boundary` over the printed alert.
--
-- assistant/views.py is Assistant/Views, assistant/prompts.py Assistant/Prompts, assistant/scoring.py
-- Assistant/Scoring. assistant/schema.py is Assistant/Schema: `validate_output`, the two JSON schemas for
-- the providers in Schema/Provider, and what `JSON_SCHEMA` demands of an answer in Schema/Formal.
--
-- assistant/llm.py is Assistant/Answer (`parse_response`), Assistant/Post (the retry loop of `_post`, where
-- the network answers by the number of the attempt) and Assistant/Llm: the numbers of the environment in
-- Llm/Settings, `load_env_file` in Llm/EnvFile over the list of the lines, `timeout_override` in Llm/Override,
-- `provider_request_info` in Llm/Endpoints, the texts and marks of an answer in Llm/Completion, one request
-- in Llm/Exchange, and the four providers in Llm/Mock, Llm/Anthropic, Llm/Openai and Llm/Ollama, which
-- Llm/Providers chooses between. The environment is a dict, and `urlsplit` an argument.
--
-- assistant/paste_core.py is Assistant/Paste: the limits in Paste/Input, the endpoints and the consent
-- in Paste/Endpoint, and `run_paste_pipeline`, which goes through redaction, view, scan, prompt, the
-- gates, at most one call, and the validator. A run returns its result and the list of the calls that
-- it has made. The environment, `urlsplit`, the clock and the call of the provider are arguments. The
-- texts of the errors are data types.
--
-- assistant/runner.py and assistant/rebuild_from_audit.py are Assistant/Batch: `select_alerts` in
-- Batch/Selection, the loop of `main` as `run_alerts`, and `rebuild`. The audit log is the list of its
-- records, and the call of the provider an argument.
--
-- assistant/audit.py is Assistant/Audit: a file is the list of its lines.
--
-- siem/rbac/broker_tls/operator_core.py is Broker: the contract in Broker/Core, `installed_checks` in
-- Broker/Manifest, `verify_installed_bytes` in Broker/Verify with a reader that may answer each read
-- differently, and `recovery_step` in Broker/Recovery.
--
-- The adapters stand on Broker/Os: a computation over system calls returns its result and the log of the
-- calls that it has made, and each answer of the system is a function of the log before it, so the same call
-- may be answered differently each time. operator_fs.py is Broker/Files (the walk over held descriptors, the
-- bounded read, the rechecks, `InstalledReader`; Files/Quiet has what a read promises where the file system
-- does not change, said over paths alone), operator_service.py is Broker/Service (`_query` with its
-- child process, and the typed parser in Service/Properties, the summary in Service/Summary),
-- operator_process.py is Broker/Process (the records of procfs in Process/Records, the snapshots and
-- `observe_running_process`).
--
-- Each module with proofs stands below the code that it is about. Tests holds runs at concrete inputs,
-- and each theorem applied at one.
--
-- Bounds: a loop of a pattern makes at most as many rounds as there are characters left, and a round
-- counts only if it read something, so no more rounds could count; the digits of a number are written
-- in as many rounds as the number plus one, which is more than it has digits; the numbers of
-- `range(retries + 1)` that are left are the fuel of the retry loop, as in the source; a bounded read of a
-- file has one round more than the bytes it may take, and the read of a pipe one more still, since each round
-- adds a byte or is the last.
--
-- Not modelled: the Streamlit pages, the pre-flight script, the record that the paste page saves, the printed
-- messages of the batch runner, the text that a failed answer of a server is quoted with, the runtime,
-- bootstrap and launcher of the broker operator, the builder of the broker candidate, the inventory
-- collectors and the check of the frozen evidence. They print, copy or call the parts above, or drive tools
-- that are not in the repository. A text that is too deep for the JSON decoder counts as no JSON, the
-- printed form of a value inside an error is left out, `lower` maps each code point by itself, without the
-- other form of a capital sigma at the end of a word, and what carries out the answers of `recovery_step` is
-- not in the repository.
pub mod Prelude
pub mod Text
pub mod Result
pub mod Json
pub mod Platform
pub mod Dumps
pub mod Regex
pub mod Assistant
pub mod Broker
pub mod Tests
