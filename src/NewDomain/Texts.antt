-- ===== src/NewDomain/Texts.antt =====
-- scripts/new_domain.py: the texts that it writes.
use deep_agent_blueprint.Prelude.{List, [], ◌∷◌}
use deep_agent_blueprint.Templates.{Part, lit, slot}

unfoldable pub adapter_template : List Part
adapter_template =
    lit "\"\"\""
    ∷ slot "title"
    ∷ lit " DomainAdapter.\n"
    ∷ lit "\n"
    ∷ lit "CUSTOMIZATION POINT: domain-owned file, scaffolded from TEMPLATE_VERSI"
    ∷ lit "ON.\n"
    ∷ lit "Reference implementations: app/adapters/jira.py (USER_PAT),\n"
    ∷ lit "app/adapters/websearch.py (SERVICE_CREDENTIAL, research-only).\n"
    ∷ lit "\"\"\"\n"
    ∷ lit "\n"
    ∷ lit "from __future__ import annotations\n"
    ∷ lit "\n"
    ∷ lit "from typing import Any, Callable, ClassVar, Mapping\n"
    ∷ lit "\n"
    ∷ lit "import httpx\n"
    ∷ lit "from pydantic import BaseModel, Field\n"
    ∷ lit "\n"
    ∷ lit "from app.adapters.base import (\n"
    ∷ lit "    AuthMode,\n"
    ∷ lit "    DomainAdapter,\n"
    ∷ lit "    DownstreamCredentials,\n"
    ∷ lit "    ExecutionResult,\n"
    ∷ lit "    PreconditionResult,\n"
    ∷ lit "    read_request_with_backoff,\n"
    ∷ lit ")\n"
    ∷ lit "from app.models.schemas import ProposedAction\n"
    ∷ lit "from app.observability.correlation import downstream_headers\n"
    ∷ lit "\n"
    ∷ lit "\n"
    ∷ lit "# TODO: one Pydantic schema per mutation this domain supports.\n"
    ∷ lit "class ExamplePayload(BaseModel):\n"
    ∷ lit "    target_id: str = Field(min_length=1)\n"
    ∷ lit "\n"
    ∷ lit "\n"
    ∷ lit "class "
    ∷ slot "class_name"
    ∷ lit "(DomainAdapter):\n"
    ∷ lit "    name: ClassVar[str] = \""
    ∷ slot "name"
    ∷ lit "\"\n"
    ∷ lit "    # TODO: declare the real auth mode — USER_PAT (acts as the end use"
    ∷ lit "r),\n"
    ∷ lit "    # SERVICE_CREDENTIAL (service-owned key), or NONE (open sources).\n"
    ∷ lit "    auth_mode: ClassVar[AuthMode] = AuthMode.NONE\n"
    ∷ lit "    log_content_allowlist: ClassVar[frozenset[str]] = frozenset()\n"
    ∷ lit "\n"
    ∷ lit "    def __init__(\n"
    ∷ lit "        self,\n"
    ∷ lit "        base_url: str,\n"
    ∷ lit "        http_client_factory: Callable[[DownstreamCredentials], httpx.A"
    ∷ lit "syncClient] | None = None,\n"
    ∷ lit "    ) -> None:\n"
    ∷ lit "        self._base_url = base_url.rstrip(\"/\")\n"
    ∷ lit "        self._http_client_factory = http_client_factory or self._defau"
    ∷ lit "lt_client\n"
    ∷ lit "\n"
    ∷ lit "    def _default_client(self, credentials: DownstreamCredentials) -> h"
    ∷ lit "ttpx.AsyncClient:\n"
    ∷ lit "        headers = dict(downstream_headers())\n"
    ∷ lit "        if self.auth_mode is AuthMode.USER_PAT:\n"
    ∷ lit "            headers[\"Authorization\"] = f\"Bearer {"
    ∷ lit "credentials.user_token}"
    ∷ lit "\"\n"
    ∷ lit "        return httpx.AsyncClient(base_url=self._base_url, headers=head"
    ∷ lit "ers, timeout=15.0)\n"
    ∷ lit "\n"
    ∷ lit "    def read_tools(self, credentials: DownstreamCredentials) -> list[C"
    ∷ lit "allable[..., Any]]:\n"
    ∷ lit "        factory = self._http_client_factory\n"
    ∷ lit "\n"
    ∷ lit "        async def search(query: str, max_results: int = 20) -> str:\n"
    ∷ lit "            \"\"\"TODO: describe this read-only tool for the agent.\"\"\"\n"
    ∷ lit "            # DOMAIN-SPECIFIC: implement the read call\n"
    ∷ lit "            async with factory(credentials) as client:\n"
    ∷ lit "                response = await read_request_with_backoff(\n"
    ∷ lit "                    lambda: client.get(\"/search\", params={"
    ∷ lit "\"q\": query}"
    ∷ lit ")\n"
    ∷ lit "                )\n"
    ∷ lit "                response.raise_for_status()\n"
    ∷ lit "                return response.text\n"
    ∷ lit "\n"
    ∷ lit "        return [search]\n"
    ∷ lit "\n"
    ∷ lit "    def research_instructions(self) -> str:\n"
    ∷ lit "        return \"TODO: domain-specific research guidance.\"\n"
    ∷ lit "\n"
    ∷ lit "    def action_schemas(self) -> Mapping[str, type[BaseModel]]:\n"
    ∷ lit "        # Empty mapping = research-only domain (no /execute path).\n"
    ∷ lit "        return {"
    ∷ lit "\"example_action\": ExamplePayload}"
    ∷ lit "\n"
    ∷ lit "\n"
    ∷ lit "    async def check_preconditions(\n"
    ∷ lit "        self, action: ProposedAction, credentials: DownstreamCredentia"
    ∷ lit "ls\n"
    ∷ lit "    ) -> PreconditionResult:\n"
    ∷ lit "        # DOMAIN-SPECIFIC: fetch live target state, compare to\n"
    ∷ lit "        # action.preconditions; return ok=False with details on drift."
    ∷ lit "\n"
    ∷ lit "        return PreconditionResult(ok=True)\n"
    ∷ lit "\n"
    ∷ lit "    async def execute(\n"
    ∷ lit "        self,\n"
    ∷ lit "        action: ProposedAction,\n"
    ∷ lit "        approved_payload: dict[str, Any],\n"
    ∷ lit "        credentials: DownstreamCredentials,\n"
    ∷ lit "    ) -> ExecutionResult:\n"
    ∷ lit "        validated = self.validate_payload(action.action_type, approved"
    ∷ lit "_payload)\n"
    ∷ lit "        # DOMAIN-SPECIFIC: perform the single approved mutation.\n"
    ∷ lit "        raise NotImplementedError(\"implement the mutation call\")\n"
    ∷ []

unfoldable pub unit_test_template : List Part
unit_test_template =
    lit "from __future__ import annotations\n"
    ∷ lit "\n"
    ∷ lit "import pytest\n"
    ∷ lit "\n"
    ∷ lit "from app.adapters."
    ∷ slot "name"
    ∷ lit " import "
    ∷ slot "class_name"
    ∷ lit "\n"
    ∷ lit "\n"
    ∷ lit "\n"
    ∷ lit "@pytest.fixture\n"
    ∷ lit "def adapter() -> "
    ∷ slot "class_name"
    ∷ lit ":\n"
    ∷ lit "    # TODO: wire an httpx.MockTransport like tests/unit/test_jira_adap"
    ∷ lit "ter.py\n"
    ∷ lit "    return "
    ∷ slot "class_name"
    ∷ lit "(base_url=\"https://"
    ∷ slot "name"
    ∷ lit ".local\")\n"
    ∷ lit "\n"
    ∷ lit "\n"
    ∷ lit "def test_auth_mode_is_declared(adapter):\n"
    ∷ lit "    assert adapter.name == \""
    ∷ slot "name"
    ∷ lit "\"\n"
    ∷ lit "    assert adapter.auth_mode is not None\n"
    ∷ lit "\n"
    ∷ lit "\n"
    ∷ lit "# TODO: schema validation, editable fields, precondition drift, execut"
    ∷ lit "ors.\n"
    ∷ []

unfoldable pub builder_snippet : List Part
builder_snippet =
    lit "def _build_"
    ∷ slot "name"
    ∷ lit "(settings: \"Settings\") -> DomainAdapter:\n"
    ∷ lit "    from app.adapters."
    ∷ slot "name"
    ∷ lit " import "
    ∷ slot "class_name"
    ∷ lit "\n"
    ∷ lit "\n"
    ∷ lit "    return "
    ∷ slot "class_name"
    ∷ lit "(base_url=settings."
    ∷ slot "name"
    ∷ lit "_base_url)\n"
    ∷ lit "\n"
    ∷ lit "\n"
    ∷ []

unfoldable pub case_snippet : List Part
case_snippet =
    lit "def _"
    ∷ slot "name"
    ∷ lit "_case() -> ContractCase:\n"
    ∷ lit "    # TODO: build the adapter fully offline (httpx.MockTransport), giv"
    ∷ lit "e it a\n"
    ∷ lit "    # canned agent output, and (for USER_PAT) a fake user token. See\n"
    ∷ lit "    # _jira_case for the pattern. The contract suite must pass UNCHANG"
    ∷ lit "ED.\n"
    ∷ lit "    def build() -> DomainAdapter:\n"
    ∷ lit "        from app.adapters."
    ∷ slot "name"
    ∷ lit " import "
    ∷ slot "class_name"
    ∷ lit "\n"
    ∷ lit "\n"
    ∷ lit "        return "
    ∷ slot "class_name"
    ∷ lit "(base_url=\"https://"
    ∷ slot "name"
    ∷ lit ".local\")\n"
    ∷ lit "\n"
    ∷ lit "    return ContractCase(\n"
    ∷ lit "        name=\""
    ∷ slot "name"
    ∷ lit "\",\n"
    ∷ lit "        user_token=None,  # set for USER_PAT domains\n"
    ∷ lit "        agent_output={"
    ∷ lit "\"summary\": \"TODO\", \"sources\": [], \"details\": {"
    ∷ lit "}"
    ∷ lit ",\n"
    ∷ lit "                      \"proposed_actions\": []}"
    ∷ lit ",\n"
    ∷ lit "        build=build,\n"
    ∷ lit "        has_actions=False,\n"
    ∷ lit "    )\n"
    ∷ lit "\n"
    ∷ lit "\n"
    ∷ []
