-- ===== src/Quarantine/Export/Template.antt =====
-- src/quarantine/export/html.rs: the constant texts of the page and of one row, that stand
-- between the places which `write!` and `format!` fill in.
use propylea.Prelude.{Text, [], codes, texts, ◌++◌, ◌∷◌}

-- `HTML_STYLES`
unfoldable pub html_styles : Text
unfolding texts
html_styles = texts (
    "\n" ∷ ":root {\n" ∷ "    --bg-base: #0a0e14; --bg-surface: #121820; --bg-card: #1a222d;\n"
    ∷ "    --border: #263242; --text-main: #e6edf3; --text-muted: #8b949e;\n"
    ∷ "    --accent-cyan: #00ffcc; --accent-red: #ff3366; --accent-orange: #ffaa00; -"
    ∷ "-accent-green: #00e676;\n" ∷ "}\n" ∷ "* { box-sizing: border-box; margin: 0; padding: 0; }\n"
    ∷ "body { background: var(--bg-base); color: var(--text-main); font-family: -appl"
    ∷ "e-system, BlinkMacSystemFont, \"Segoe UI\", Roboto, sans-serif; padding: 32px "
    ∷ "24px; line-height: 1.5; }\n" ∷ ".container { max-width: 1300px; margin: 0 auto; }\n"
    ∷ "header { display: flex; justify-content: space-between; align-items: center; p"
    ∷ "adding-bottom: 24px; border-bottom: 1px solid var(--border); margin-bottom: 32"
    ∷ "px; flex-wrap: wrap; gap: 16px; }\n"
    ∷ ".brand { display: flex; align-items: center; gap: 12px; }\n"
    ∷ ".brand h1 { font-size: 24px; font-weight: 700; letter-spacing: -0.5px; }\n"
    ∷ ".brand p { color: var(--text-muted); font-size: 13px; }\n"
    ∷ ".badge-sovereign { background: rgba(0, 255, 204, 0.1); color: var(--accent-cya"
    ∷ "n); border: 1px solid rgba(0, 255, 204, 0.3); padding: 4px 10px; border-radius"
    ∷ ": 999px; font-size: 12px; font-weight: 600; text-transform: uppercase; }\n"
    ∷ ".grid { display: grid; grid-template-columns: repeat(auto-fit, minmax(220px, 1"
    ∷ "fr)); gap: 16px; margin-bottom: 32px; }\n"
    ∷ ".card { background: var(--bg-card); border: 1px solid var(--border); border-ra"
    ∷ "dius: 8px; padding: 20px; }\n"
    ∷ ".card-label { color: var(--text-muted); font-size: 12px; text-transform: upper"
    ∷ "case; font-weight: 600; margin-bottom: 8px; }\n"
    ∷ ".card-value { font-size: 32px; font-weight: 800; font-family: monospace; }\n"
    ∷ ".card-value.active { color: var(--accent-red); }\n"
    ∷ ".card-value.total { color: var(--accent-cyan); }\n"
    ∷ ".card-value.sub { color: var(--text-main); }\n"
    ∷ ".toolbar { display: flex; gap: 16px; margin-bottom: 20px; align-items: center;"
    ∷ " flex-wrap: wrap; }\n"
    ∷ ".search-box { flex: 1; min-width: 260px; background: var(--bg-surface); border"
    ∷ ": 1px solid var(--border); border-radius: 6px; padding: 10px 14px; color: var("
    ∷ "--text-main); font-size: 14px; outline: none; }\n"
    ∷ ".search-box:focus { border-color: var(--accent-cyan); }\n"
    ∷ ".filter-select { background: var(--bg-surface); border: 1px solid var(--border"
    ∷ "); border-radius: 6px; padding: 10px 14px; color: var(--text-main); font-size:"
    ∷ " 14px; outline: none; cursor: pointer; }\n"
    ∷ ".table-wrap { background: var(--bg-surface); border: 1px solid var(--border); "
    ∷ "border-radius: 8px; overflow-x: auto; }\n"
    ∷ "table { width: 100%; border-collapse: collapse; text-align: left; font-size: 1" ∷ "3px; }\n"
    ∷ "th { background: var(--bg-card); color: var(--text-muted); padding: 14px 16px;"
    ∷ " font-size: 11px; text-transform: uppercase; font-weight: 700; letter-spacing:"
    ∷ " 0.5px; border-bottom: 1px solid var(--border); }\n"
    ∷ "td { padding: 14px 16px; border-bottom: 1px solid var(--border); vertical-alig"
    ∷ "n: middle; }\n" ∷ "tr:hover td { background: rgba(255, 255, 255, 0.02); }\n"
    ∷ ".font-mono { font-family: monospace; font-size: 13px; }\n"
    ∷ ".badge { display: inline-block; padding: 3px 8px; border-radius: 4px; font-siz"
    ∷ "e: 11px; font-weight: 700; letter-spacing: 0.3px; }\n"
    ∷ ".badge-active { background: rgba(255, 51, 102, 0.15); color: var(--accent-red)"
    ∷ "; border: 1px solid rgba(255, 51, 102, 0.4); }\n"
    ∷ ".badge-expired { background: rgba(139, 148, 158, 0.1); color: var(--text-muted"
    ∷ "); border: 1px solid rgba(139, 148, 158, 0.3); }\n"
    ∷ ".pill { background: rgba(255, 255, 255, 0.06); color: var(--text-main); paddin"
    ∷ "g: 2px 6px; border-radius: 4px; font-size: 11px; font-family: monospace; }\n"
    ∷ ".tag { background: rgba(0, 255, 204, 0.08); color: var(--accent-cyan); padding"
    ∷ ": 3px 8px; border-radius: 4px; font-size: 11px; font-family: monospace; }\n"
    ∷ ".text-center { text-align: center; }\n" ∷ ".text-right { text-align: right; }\n"
    ∷ ".text-truncate { max-width: 250px; white-space: nowrap; overflow: hidden; text"
    ∷ "-overflow: ellipsis; }\n"
    ∷ "footer { margin-top: 32px; text-align: center; font-size: 12px; color: var(--t"
    ∷ "ext-muted); }\n" ∷ [])

unfoldable pub page_head : Text
unfolding texts
page_head = texts (
    "<!DOCTYPE html>\n" ∷ "<html lang=\"en\">\n" ∷ "<head>\n" ∷ "    <meta charset=\"UTF-8\">\n"
    ∷ "    <meta name=\"viewport\" content=\"width=device-width, initial-scale=1.0\">" ∷ "\n"
    ∷ "    <title>Propylea Autonomous Quarantine Intelligence Deck</title>\n" ∷ "    <style>" ∷ [])

unfoldable pub page_active : Text
unfolding texts
page_active =
    texts (
      "</style>\n" ∷ "</head>\n" ∷ "<body>\n" ∷ "    <div class=\"container\">\n"
      ∷ "        <header>\n" ∷ "            <div class=\"brand\">\n" ∷ "                <div>\n"
      ∷ "                    <h1>🛡" ∷ [])
    ++ (0xfe0f
        ∷ texts (
            " Propylea Quarantine Radar</h1>\n"
            ∷ "                    <p>Sovereign Edge Ingress Defense & Subnet Quarantine Oper"
            ∷ "ations</p>\n" ∷ "                </div>\n" ∷ "            </div>\n"
            ∷ "            <div><span class=\"badge-sovereign\">100% Zero-Cloud Custody</span"
            ∷ "></div>\n" ∷ "        </header>\n" ∷ "        <div class=\"grid\">\n"
            ∷ "            <div class=\"card\"><div class=\"card-label\">Active Enforced Bans"
            ∷ "</div><div class=\"card-value active\">" ∷ []))

unfoldable pub page_total : Text
unfolding texts
page_total = texts (
    "</div></div>\n"
    ∷ "            <div class=\"card\"><div class=\"card-label\">Total Historical Rec"
    ∷ "ords</div><div class=\"card-value total\">" ∷ [])

unfoldable pub page_v4 : Text
unfolding texts
page_v4 = texts (
    "</div></div>\n"
    ∷ "            <div class=\"card\"><div class=\"card-label\">IPv4 Subnets (/24)</"
    ∷ "div><div class=\"card-value sub\">" ∷ [])

unfoldable pub page_v6 : Text
unfolding texts
page_v6 = texts (
    "</div></div>\n"
    ∷ "            <div class=\"card\"><div class=\"card-label\">IPv6 Subnets (/48)</"
    ∷ "div><div class=\"card-value sub\">" ∷ [])

unfoldable pub page_rows : Text
unfolding texts
page_rows = texts (
    "</div></div>\n" ∷ "        </div>\n" ∷ "        <div class=\"toolbar\">\n"
    ∷ "            <input type=\"text\" id=\"searchInput\" class=\"search-box\" place"
    ∷ "holder=\"🔍 Filter by CIDR, Trigger IP, or Infraction vector...\" onkeyup=\"fil"
    ∷ "terTable()\">\n"
    ∷ "            <select id=\"statusFilter\" class=\"filter-select\" onchange=\"fil"
    ∷ "terTable()\">\n" ∷ "                <option value=\"all\">All Records</option>\n"
    ∷ "                <option value=\"active\" selected>Active Bans Only</option>\n"
    ∷ "                <option value=\"expired\">Expired Records Only</option>\n"
    ∷ "            </select>\n" ∷ "        </div>\n" ∷ "        <div class=\"table-wrap\">\n"
    ∷ "            <table id=\"quarantineTable\">\n" ∷ "                <thead>\n"
    ∷ "                    <tr>\n"
    ∷ "                        <th>Subnet CIDR</th><th>Ver</th><th>Trigger IP</th><th"
    ∷ ">Infraction Vector</th>\n"
    ∷ "                        <th class=\"text-center\">Violations</th><th>Status</t"
    ∷ "h><th class=\"text-right\">Expires In</th><th>Captured User-Agent</th>\n"
    ∷ "                    </tr>\n" ∷ "                </thead>\n" ∷ "                <tbody>" ∷ [])

unfoldable pub page_footer : Text
unfolding texts
page_footer = texts (
    "</tbody>\n" ∷ "            </table>\n" ∷ "        </div>\n"
    ∷ "        <footer>Propylea Sovereign L7 Reverse Proxy & Perimeter Defense • Gene"
    ∷ "rated at Unix ms: " ∷ [])

unfoldable pub page_end : Text
unfolding texts
page_end = texts (
    "</footer>\n" ∷ "    </div>\n" ∷ "    <script>\n" ∷ "        function filterTable() {\n"
    ∷ "            const search = document.getElementById('searchInput').value.toLowe"
    ∷ "rCase();\n" ∷ "            const status = document.getElementById('statusFilter').value;\n"
    ∷ "            const rows = document.querySelectorAll('#quarantineTable tbody tr'" ∷ ");\n"
    ∷ "            rows.forEach(row => {\n"
    ∷ "                const text = row.innerText.toLowerCase();\n"
    ∷ "                const matchesSearch = text.includes(search);\n"
    ∷ "                const isActive = row.classList.contains('filter-active');\n"
    ∷ "                let matchesStatus = status === 'all' || (status === 'active' ?"
    ∷ " isActive : !isActive);\n"
    ∷ "                row.style.display = (matchesSearch && matchesStatus) ? '' : 'n" ∷ "one';\n"
    ∷ "            });\n" ∷ "        }\n" ∷ "        filterTable();\n" ∷ "    </script>\n"
    ∷ "</body>\n" ∷ "</html>" ∷ [])

unfoldable pub row_class : Text
row_class = codes "<tr class=\""

unfoldable pub row_cidr : Text
unfolding texts
row_cidr = texts ("\">\n" ∷ "                <td class=\"font-mono\"><strong>" ∷ [])

unfoldable pub row_version : Text
unfolding texts
row_version = texts ("</strong></td>\n" ∷ "                <td><span class=\"pill\">v" ∷ [])

unfoldable pub row_trigger : Text
unfolding texts
row_trigger = texts ("</span></td>\n" ∷ "                <td class=\"font-mono\">" ∷ [])

unfoldable pub row_infraction : Text
unfolding texts
row_infraction = texts ("</td>\n" ∷ "                <td><span class=\"tag\">" ∷ [])

unfoldable pub row_violations : Text
unfolding texts
row_violations = texts ("</span></td>\n" ∷ "                <td class=\"text-center\">" ∷ [])

unfoldable pub row_badge : Text
unfolding texts
row_badge = texts ("</td>\n" ∷ "                <td><span class=\"badge " ∷ [])

unfoldable pub row_badge_text : Text
row_badge_text = codes "\">"

unfoldable pub row_remaining : Text
unfolding texts
row_remaining =
    texts ("</span></td>\n" ∷ "                <td class=\"text-right font-mono\">" ∷ [])

unfoldable pub row_title : Text
unfolding texts
row_title = texts ("</td>\n" ∷ "                <td class=\"text-truncate\" title=\"" ∷ [])

unfoldable pub row_agent : Text
row_agent = codes "\">"

unfoldable pub row_end : Text
unfolding texts
row_end = texts ("</td>\n" ∷ "            </tr>" ∷ [])
