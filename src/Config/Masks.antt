-- ===== src/Config/Masks.antt =====
-- From a configuration without errors to the masker of internal/pii: the masker is built, and masks
-- every tool that the configuration assigns.
use mcp_zero_trust_proxy.Config.{Config}
