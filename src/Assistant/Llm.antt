-- ===== src/Assistant/Llm.antt =====
-- llm.py: the client of the providers, from the settings of the environment to the text and the
-- metadata of an answer.
pub mod Error
pub mod Settings
pub mod EnvFile
pub mod Override
pub mod Endpoints
pub mod Completion
pub mod Mock
pub mod Exchange
pub mod Anthropic
pub mod Openai
pub mod Ollama
pub mod Providers
pub mod Evidence
pub mod Consent
